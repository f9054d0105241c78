-- ===== src/Smtpd.antt =====
-- The SMTP server: core/smtpd_session.go and core/plugin.go.
pub mod Accept
pub mod Auth
pub mod Data
pub mod Greeting
pub mod Handle
pub mod Invariant
pub mod Mail
pub mod Rcpt
pub mod Reader
pub mod Relay
pub mod Session
pub mod View
pub mod Vrfy

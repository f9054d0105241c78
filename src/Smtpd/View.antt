-- ===== src/Smtpd/View.antt =====
-- What a session knows of the transaction in progress, and which commands change it.
pub mod Commands
use tmail.Prelude.{◌≡◌, [], ℕ, true, false, Bool, inl, inr, Bool-cases}
use tmail.Message.{Envelope}
use tmail.Smtpd.Session.{
  Env, Session, Hook, out, exec_smtpd_plugins, exit_asap, recover_on_panic, raise_timeout,
  at_exitasap,
}

abbrev pub View : Type 0
View = Envelope × Bool × ℕ

abbrev pub view : Session → View
view s = (s.envelope, s.seen_mail, s.rcpt_count)

abbrev pub blank : View
blank = (record { mail_from = []; rcpt_to = [] }, false, 0)

-- The plugins leave the envelope, the flag of MAIL and the count of recipients as they are.
pub record LeaveView (e : Env) : Type 0 where
  pub leaves : (h : Hook) (s : Session) → view (exec_smtpd_plugins e h s).0 ≡ view s

module _ (e : Env) (p : LeaveView e) where
  pub exit_asap-view : (s : Session) → view (exit_asap e s) ≡ view s
  unfolding exit_asap
  exit_asap-view s = elim (Bool-cases s.exiting) [
    | inl twice ↦ rw twice
    | inr first ↦ rw first (p.leaves at_exitasap (record s { exiting = true }))
  ]

  pub recover_on_panic-view : (s : Session) → view (recover_on_panic e s) ≡ view s
  unfolding recover_on_panic out
  recover_on_panic-view s = exit_asap-view _

  pub raise_timeout-view : (s : Session) → view (raise_timeout e s) ≡ view s
  unfolding raise_timeout out
  raise_timeout-view s = exit_asap-view _

-- ===== src/Lib.antt =====
-- tmail: a model of the core of the SMTP server tmail, and the theorems on it.
--
-- The program. `tmail` takes messages over SMTP (core/smtpd_session.go), stores each raw message
-- and one row per recipient and announces the rows on a message bus (core/mailqueue.go), and
-- takes each row off the bus again to deliver it to a local mailbox or to a remote host
-- (core/deliverd_delivery.go, core/deliverd_local.go, core/deliverd_remote.go). A session hands
-- the message that DATA reads, its envelope and the name of the user to `QueueAddMessage`; a
-- delivery that fails for good makes a bounce by the same function, and an alias puts the message
-- into the queue again.
--
-- Which file models which part:
-- - Prelude: names of the library, operators on native numbers, lemmas on lists. Text: the
--   functions of Go's `strings` and `bytes` that the source calls, with Text/Number for
--   `strconv.ParseInt` and Text/Base64 for `encoding/base64`; Text/Utils: core/utils.go
--   (`RemoveBrackets`, `IsStringInSlice`, `StripQuotes`, `IsIPV4`, `Unix2dos`, `isFQN`).
-- - Message: message/envelope.go, message/raw.go and `GetHostFromAddress`; Message/Fold:
--   `FoldHeader` of message/message.go.
-- - Directory: the records of users, hosts and aliases, and the queries on them as a record that
--   the session and the delivery take.
-- - Accounts: the tables behind these queries, and the operations on them: Accounts/Users
--   (core/user.go), Accounts/Aliases (core/alias.go), Accounts/Hosts (core/rcpthost.go,
--   core/mailbox.go, core/smtpd_relay_ip.go), Accounts/LocalRcpt (`IsValidLocalRcpt` of
--   core/local.go) and Accounts/Calls (the part of api/api.go that changes them). An operation is
--   an action: a function from a database to its result and the database behind it, where a list
--   of faults says which calls of the database to come fail. Accounts/Triple has the rules by
--   which an action keeps a property of the tables, and Accounts/Sound the property.
--   Accounts/Served makes the record of Directory from the tables, and Accounts/Places the
--   queries of Deliverd/Local.
-- - Queue: core/mailqueue.go. The table, the store and the topic of the bus are the three lists
--   of the record `Queue`; `add_message` is `QueueAddMessage`, `delete` is `QMessage.Delete`.
-- - Smtpd: core/smtpd_session.go and the part of core/plugin.go for sessions. Smtpd/Session has
--   the record `Session` (struct `SMTPServerSession`) and the helpers `Out`, `ExitAsap`, `Reset`;
--   then Smtpd/Greeting (greeting, HELO, EHLO), Smtpd/Mail, Smtpd/Rcpt, Smtpd/Vrfy, Smtpd/Reader
--   (the loop of DATA that reads the message), Smtpd/Data (what DATA does with it), Smtpd/Auth
--   (QUIT, STARTTLS, AUTH), and Smtpd/Handle (`handle`: the reading loop, and the step relation
--   of a session with its timer and its hang-up). A handler is a function from a session to a
--   session; the bytes that the client will send and the replies are fields of it.
-- - Deliverd: core/deliverd_delivery.go, with Deliverd/Process (`processMsg`, and
--   `isLocalDelivery` of core/local.go), Deliverd/Local (core/deliverd_local.go) and
--   Deliverd/Remote (core/deliverd_remote.go), and Deliverd/Routes (core/deliverd_route.go:
--   `getRoutes`, and `AddRoute` and `DelRoute` in Deliverd/Routes/Table). What a delivery says to
--   the bus is the list `answers`.
-- - Client: core/smtp_client.go, the record `SmtpClient` and its commands, with Client/Connect
--   (`newSMTPClient`, `isRemoteIPOK`, `setIPKO`) and Client/Auth (`Auth`, and
--   core/deliverd_auth.go). The remote host is the list of its answers. Deliverd/Remote takes the
--   outcomes of these commands as a record of its own.
-- - Store: core/store_disk.go; a path is a list of names, and the files are an association list.
-- - Scan: core/clamav.go, what `ScanStream` sends and what the reply means.
-- - Examples: tests, and each theorem at an input that meets its conditions.
--
-- Bounds and fuel. `SMTPServerSession.dataBytes` and the product in `requeue` wrap around (modulo
-- 2 ^ 32 and 2 ^ 16); `int` is unbounded, and times are numbers of seconds. Texts are lists of
-- bytes, and `ToLower`, `TrimSpace` and the like are those of ASCII: what Go does with other
-- letters and blanks of Unicode is not modelled. The loop that reads a message recurs on the
-- bytes the client sends, so that it needs no fuel. `processMsg` tries to read its row twice at
-- most, as the source does. `serve`, which runs a whole session on one schedule for the tests,
-- has as fuel the number of bytes it may read; the theorems on sessions are about the step
-- relation, which has none. `is_valid_local_rcpt` has as fuel the number of its calls of itself:
-- the source has no bound, and the model answers `still_running` where the fuel ends. `chunks`
-- has as fuel the number of bytes to send, since each round takes one at least.
--
-- Not modelled. Code outside the repository is a parameter: the resolver, the parser of addresses
-- of net/mail, the database, the store, the message bus, TLS, the virus scanner, the template of
-- a bounce, the commands that deliver to a mailbox. So are the plugins, the table of routes, and
-- the answers of remote hosts. Pauses, log lines, telemetry, the plugins at the end of a delivery
-- and the reset of the timer are left out. The configuration, the parser of smtpd.dsn, DKIM, the
-- command line and the REST interface are not modelled.
pub mod Accounts
pub mod Client
pub mod Deliverd
pub mod Directory
pub mod Examples
pub mod Message
pub mod Prelude
pub mod Queue
pub mod Scan
pub mod Smtpd
pub mod Store
pub mod Text

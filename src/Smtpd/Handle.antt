-- ===== src/Smtpd/Handle.antt =====
-- `handle` of core/smtpd_session.go: the reading of commands, and the steps of a session.
use tmail.Prelude.{
  ◌≡◌, ◌⊎◌, ◌∷◌, ◌++◌, ◌==◌, if◌then◌else◌, [], ℕ, suc, zero, true, false, List, codes, Bytes,
  length, eq_bytes,
}
use tmail.Smtpd.Auth.{smtp_quit, smtp_start_tls, smtp_auth}
use tmail.Smtpd.Data.{smtp_data}
use tmail.Smtpd.Greeting.{smtp_greeting, smtp_helo, smtp_ehlo}
use tmail.Smtpd.Mail.{smtp_mail_from, rset, noop}
use tmail.Smtpd.Rcpt.{smtp_rcpt_to}
use tmail.Smtpd.Session.{Env, Session, answer, exit_asap, raise_timeout}
use tmail.Smtpd.Vrfy.{smtp_vrfy, smtp_expn}
use tmail.Text.{lf, to_lower, split, trim_space}

pub data Verb : Type 0 where
  helo ehlo mail vrfy expn rcpt data_verb starttls auth rset_verb noop_verb quit unknown : Verb

unfoldable pub verb_of : Bytes → Verb
verb_of w =
    if eq_bytes w (codes "helo")
    then helo
    else if eq_bytes w (codes "ehlo")
    then ehlo
    else if eq_bytes w (codes "mail")
    then mail
    else if eq_bytes w (codes "vrfy")
    then vrfy
    else if eq_bytes w (codes "expn")
    then expn
    else if eq_bytes w (codes "rcpt")
    then rcpt
    else if eq_bytes w (codes "data")
    then data_verb
    else if eq_bytes w (codes "starttls")
    then starttls
    else if eq_bytes w (codes "auth")
    then auth
    else if eq_bytes w (codes "rset")
    then rset_verb
    else if eq_bytes w (codes "noop")
    then noop_verb
    else if eq_bytes w (codes "quit")
    then quit
    else unknown

-- the words of a command that are not blank
unfoldable pub keep_words : List Bytes → List Bytes
keep_words [] = []
keep_words (w ∷ ws) =
    let rest = keep_words ws in let t = trim_space w in if length t == 0 then rest else t ∷ rest

unfoldable pub run_verb : Env → Verb → Bytes → List Bytes → Session → Session
run_verb e helo str msg s = smtp_helo e msg s
run_verb e ehlo str msg s = smtp_ehlo e msg s
run_verb e mail str msg s = smtp_mail_from e msg s
run_verb e vrfy str msg s = smtp_vrfy e msg s
run_verb e expn str msg s = smtp_expn s
run_verb e rcpt str msg s = smtp_rcpt_to e msg s
run_verb e data_verb str msg s = smtp_data e msg s
run_verb e starttls str msg s = smtp_start_tls e s
run_verb e auth str msg s = smtp_auth e str s
run_verb e rset_verb str msg s = rset s
run_verb e noop_verb str msg s = noop s
run_verb e quit str msg s = smtp_quit e s
run_verb e unknown str msg s = answer 502 " 5.5.1 unimplemented" [] s

unfoldable pub run_words : Env → Bytes → List Bytes → Session → Session
unfolding run_verb verb_of
run_words e str [] s = s
run_words e str (w ∷ ws) s = run_verb e (verb_of (to_lower w)) str (w ∷ ws) s

-- a whole command, as it was read
unfoldable pub run_command : Env → Bytes → Session → Session
unfolding run_words keep_words
run_command e cmd s =
    let str = trim_space cmd in run_words e str (keep_words (split str (32 ∷ []))) s

-- one byte of the reading loop
unfoldable pub handle_byte : Env → ℕ → Session → Session
unfolding run_command
handle_byte e b s =
    if b == 0
    then s
    else if b == lf
    then record (run_command e s.last_client_cmd s) { last_client_cmd = [] }
    else record s { last_client_cmd = s.last_client_cmd ++ b ∷ [] }

-- The reader and the goroutine that waits for `exitasap` run side by side: the reader may take
-- another byte before the connection is closed. A read on a closed connection, or at the end of
-- what the client sends, is an error; the timer may fire at any time.
pub data Step (e : Env) : Session → Session → Type 0 where
  receive :
      {s : Session} (b : ℕ) (rest : Bytes)
      → s.inbox ≡ b ∷ rest
      → s.closed ≡ false
      → Step e s (handle_byte e b (record s { inbox = rest }))
  read_fails : {s : Session} → (s.inbox ≡ []) ⊎ (s.closed ≡ true) → Step e s (exit_asap e s)
  time_out : {s : Session} → Step e s (raise_timeout e s)
  hang_up :
      {s : Session}
      → s.exitasap ≡ true
      → Step e s (record s { closed = true; exiting = false; exitasap = false })

-- A session from its greeting on.
pub data Reach (e : Env) (start : Session) : Session → Type 0 where
  greeted : Reach e start (smtp_greeting e start)
  step : {s t : Session} → Reach e start s → Step e s t → Reach e start t

-- The reader on a schedule in which the connection is closed as soon as it is asked for; the fuel
-- is the number of bytes that it may read.
unfoldable pub serve : ℕ → Env → Session → Session
unfolding handle_byte
serve zero e s = s
serve (suc fuel) e s =
    let ended = record s { closed = true; exiting = false; exitasap = false } in
    let more : Session = elim s.inbox [
      | [] ↦ exit_asap e s
      | b ∷ rest ↦ serve fuel e (handle_byte e b (record s { inbox = rest }))
    ] in
    if s.exitasap then ended else more

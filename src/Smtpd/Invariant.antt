-- ===== src/Smtpd/Invariant.antt =====
-- What holds of the transaction in progress between two steps of a session.
pub mod Recipients
pub mod Sender
use tmail.Text.{to_lower, trim_space, split, lf}
use tmail.Prelude.{◌≡◌, ◌∷◌, ◌==◌, [], ℕ, List, inl, inr, Bytes, Bool-cases}
use tmail.Smtpd.View.{View, view, LeaveView, exit_asap-view, raise_timeout-view}
use tmail.Smtpd.Session.{Env, Session, answer, out}
use tmail.Smtpd.Handle.{
  Step, Reach, run_verb, run_words, handle_byte, receive, step, Verb, verb_of, run_command,
  read_fails, greeted, time_out, hang_up, helo, ehlo, mail, vrfy, expn, rcpt, data_verb, starttls,
  auth, keep_words, rset_verb, noop_verb, quit, unknown,
}
use tmail.Smtpd.View.Commands
use tmail.Smtpd.Invariant.Sender.{smtp_mail_from-Fresh}
use tmail.Smtpd.Invariant.Recipients.{IsSafe, blank-IsSafe, Fresh-IsSafe, smtp_rcpt_to-IsSafe}

module _ (e : Env) (p : LeaveView e) where
  same-IsSafe : {v w : View} → w ≡ v → IsSafe e.cfg v → IsSafe e.cfg w
  same-IsSafe h k = rw h k

  run_verb-IsSafe :
      (v : Verb) (str : Bytes) (msg : List Bytes) (s : Session)
      → IsSafe e.cfg (view s)
      → IsSafe e.cfg (view (run_verb e v str msg s))
  unfolding run_verb
  run_verb-IsSafe helo str msg s k = same-IsSafe (Commands.smtp_helo-view e p msg s) k
  run_verb-IsSafe ehlo str msg s k = same-IsSafe (Commands.smtp_ehlo-view e p msg s) k
  run_verb-IsSafe mail str msg s k = Fresh-IsSafe e.cfg _ (smtp_mail_from-Fresh e p msg s)
  run_verb-IsSafe vrfy str msg s k = same-IsSafe (Commands.smtp_vrfy-view e p msg s) k
  run_verb-IsSafe expn str msg s k = same-IsSafe (Commands.smtp_expn-view e p s) k
  run_verb-IsSafe rcpt str msg s k = smtp_rcpt_to-IsSafe e p msg s k
  run_verb-IsSafe data_verb str msg s k = elim (Commands.smtp_data-view e p msg s) [
    | inl same ↦ same-IsSafe same k
    | inr ended ↦ same-IsSafe ended (blank-IsSafe e.cfg)
  ]
  run_verb-IsSafe starttls str msg s k = same-IsSafe (Commands.smtp_start_tls-view e p s) k
  run_verb-IsSafe auth str msg s k = same-IsSafe (Commands.smtp_auth-view e p str s) k
  run_verb-IsSafe rset_verb str msg s k =
      same-IsSafe (Commands.rset-view e p s) (blank-IsSafe e.cfg)
  run_verb-IsSafe noop_verb str msg s k = same-IsSafe (Commands.noop-view e p s) k
  run_verb-IsSafe quit str msg s k = same-IsSafe (Commands.smtp_quit-view e p s) k
  run_verb-IsSafe unknown str msg s k = unfold answer out in k

  run_words-IsSafe :
      (str : Bytes) (ws : List Bytes) (s : Session)
      → IsSafe e.cfg (view s)
      → IsSafe e.cfg (view (run_words e str ws s))
  unfolding run_words
  run_words-IsSafe str [] s k = k
  run_words-IsSafe str (w ∷ ws) s k = run_verb-IsSafe (verb_of (to_lower w)) str (w ∷ ws) s k

  handle_byte-IsSafe :
      (b : ℕ) (s : Session) → IsSafe e.cfg (view s) → IsSafe e.cfg (view (handle_byte e b s))
  unfolding handle_byte run_command
  handle_byte-IsSafe b s k =
      let str = trim_space s.last_client_cmd in
      let ran = run_words-IsSafe str (keep_words (split str (32 ∷ []))) s k in
      elim (Bool-cases (b == 0)) [
        | inl nul ↦ rw nul k
        | inr some_byte ↦ elim (Bool-cases (b == lf)) [
          | inl line ↦ rw (some_byte, line) ran
          | inr other ↦ rw (some_byte, other) k
        ]
      ]

  Step-IsSafe : {s t : Session} → Step e s t → IsSafe e.cfg (view s) → IsSafe e.cfg (view t)
  Step-IsSafe (receive {s} b rest h o) k = handle_byte-IsSafe b (record s { inbox = rest }) k
  Step-IsSafe (read_fails {s} h) k = same-IsSafe (exit_asap-view e p s) k
  Step-IsSafe (time_out {s}) k = same-IsSafe (raise_timeout-view e p s) k
  Step-IsSafe (hang_up h) k = k

  -- In every state that a session reaches, whatever the client sends and whenever the timer fires:
  -- recipients are there only after an accepted MAIL, none stands twice in the envelope, there are
  -- at most as many as RCPT commands were counted, and no more than the configured maximum. This is
  -- so where it holds at the start and the plugins leave the envelope, the flag of MAIL and the
  -- count alone.
  pub Reach-IsSafe :
      {start s : Session} → IsSafe e.cfg (view start) → Reach e start s → IsSafe e.cfg (view s)
  Reach-IsSafe {start} k greeted = same-IsSafe (Commands.smtp_greeting-view e p start) k
  Reach-IsSafe k (step r st) = Step-IsSafe st (Reach-IsSafe k r)

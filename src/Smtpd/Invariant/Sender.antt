-- ===== src/Smtpd/Invariant/Sender.antt =====
-- MAIL starts a transaction with no recipient.
use tmail.Prelude.{◌≡◌, [], none, some, List, arith, Bytes}
use tmail.Smtpd.View.{View, view, LeaveView}
use tmail.Smtpd.Session.{
  Env, Session, answer, out, reset, at_mailpost, set_mail_from, exec_smtpd_plugins, at_mailpre,
}
use tmail.Smtpd.Mail.{
  Refusal, smtp_mail_from, take_path, finish_path, answer_reply, accept_mail, given_path,
  check_extensions, given_extensions,
}

abbrev pub IsFresh : View → Type 0
IsFresh v = (v.0.rcpt_to ≡ []) × (v.2 ≡ 0)

module _ (e : Env) (p : LeaveView e) where
  finish_path-Fresh :
      (r : Refusal) (s : Session) → IsFresh (view s) → IsFresh (view (finish_path e r s))
  unfolding finish_path answer_reply accept_mail answer out
  finish_path-Fresh (some r) s k = k
  finish_path-Fresh none s k = ground (arith, p.leaves at_mailpost s)

  take_path-Fresh :
      (r : Refusal) (s : Session) → IsFresh (view s) → IsFresh (view (take_path e r s))
  unfolding take_path answer_reply answer out
  take_path-Fresh (some r) s k = k
  take_path-Fresh none s k = finish_path-Fresh _ _ k

  -- After MAIL there is no recipient and none is counted, on every branch.
  pub smtp_mail_from-Fresh :
      (msg : List Bytes) (s : Session) → IsFresh (view (smtp_mail_from e msg s))
  unfolding smtp_mail_from reset answer out
  smtp_mail_from-Fresh msg s =
      let s' = reset s in
      let s'' = set_mail_from (given_path msg) (exec_smtpd_plugins e at_mailpre s').0 in
      ground (
        arith,
        p.leaves at_mailpre s',
        take_path-Fresh (check_extensions e.cfg.max_data_bytes (given_extensions msg)) s'',
      )

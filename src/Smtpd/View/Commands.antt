-- ===== src/Smtpd/View/Commands.antt =====
-- The commands that leave the transaction in progress as it is.
use tmail.Message.{raw_get_message_id}
use tmail.Smtpd.Rcpt.{lower_domain}
use tmail.Smtpd.Reader.{
  read_data, Outcome, complete, first_reader, too_many_hops, too_big, stray_newline, read_error,
}
use tmail.Queue.{Queue, Result, ok, err, panic}
use tmail.Text.Base64.{decode}
use tmail.Directory.{
  Query, User, RcptHost, UserError, row, no_such_user, wrong_password, query_error, other_error,
  record_not_found,
}
use tmail.Smtpd.Data.{
  answer_queued, enqueue, with_message_id, complete_headers, accept_scanned, end_data, smtp_data,
  with_headers, take_read, read_message, user_login, accept_message, limits_of,
}
use tmail.Smtpd.Mail.{noop, rset, at_sign}
use tmail.Smtpd.Auth.{
  smtp_quit, smtp_start_tls, malformed, judge_user, use_credentials, end_auth_line, auth_words,
  smtp_auth, offer_tls, end_handshake, behind_line,
}
use tmail.Smtpd.Vrfy.{
  verify_mailbox, verify_host, verify_address, smtp_vrfy, smtp_expn, with_postmaster,
}
use tmail.Text.{part, split, to_lower}
use tmail.Text.Utils.{Verdict, unresolved, is_fqn, verdict, remove_brackets}
use tmail.Smtpd.Greeting.{
  judge_helo, accept_helo, check_helo, helo_base, smtp_helo, smtp_ehlo, smtp_greeting, extensions,
  welcome,
}
use tmail.Smtpd.Session.{
  Env, answer, Session, out, exec_smtpd_plugins, at_helo, reset, at_beforequeue, at_connect,
  at_quit, Scan, at_data, infected, scan_error, clean,
}
use tmail.Prelude.{
  ◌≡◌, [], true, false, Bool, List, refl, arith, Bytes, ◌+◌, ◌⊎◌, ◌∷◌, ◌∙◌, none, some, Option, inl,
  inr,
}
use tmail.Smtpd.View.{view, LeaveView, blank, exit_asap-view, recover_on_panic-view}

module _ (e : Env) (p : LeaveView e) where
  judge_helo-view :
      (host : Bytes) (v : Verdict) (s : Session) → view (judge_helo host v s).0 ≡ view s
  unfolding judge_helo answer out
  judge_helo-view host (unresolved why) s = refl
  judge_helo-view host (verdict false) s = refl
  judge_helo-view host (verdict true) s = refl

  accept_helo-view : (msg : List Bytes) (r : Session × Bool) → view (accept_helo msg r).0 ≡ view r.0
  unfolding accept_helo
  accept_helo-view msg (s, false) = refl
  accept_helo-view msg (s, true) = refl

  check_helo-view : (msg : List Bytes) (s : Session) → view (check_helo e msg s).0 ≡ view s
  unfolding check_helo answer out
  check_helo-view msg s =
      ground (arith, judge_helo-view (part 1 msg) (is_fqn e.lookup_mx e.lookup_host (part 1 msg)) s)

  helo_base-view : (msg : List Bytes) (s : Session) → view (helo_base e msg s).0 ≡ view s
  unfolding helo_base out
  helo_base-view msg s =
      let s' = record ((exec_smtpd_plugins e at_helo s).0) { helo = [] } in
      ground (
        arith,
        p.leaves at_helo s,
        check_helo-view msg s',
        accept_helo-view msg (check_helo e msg s'),
      )

  pub smtp_helo-view : (msg : List Bytes) (s : Session) → view (smtp_helo e msg s) ≡ view s
  unfolding smtp_helo out
  smtp_helo-view msg s = ground (arith, helo_base-view msg s)

  pub smtp_ehlo-view : (msg : List Bytes) (s : Session) → view (smtp_ehlo e msg s) ≡ view s
  unfolding smtp_ehlo extensions out
  smtp_ehlo-view msg s = ground (arith, helo_base-view msg s)

  pub smtp_greeting-view : (s : Session) → view (smtp_greeting e s) ≡ view s
  unfolding smtp_greeting welcome answer out
  smtp_greeting-view s =
      let full =
        answer 421 " sorry, the maximum number of connections has been reached, try again later %s"
          (s.uuid ∷ []) s in
      ground (arith, p.leaves at_connect s, exit_asap-view e p full)

  verify_mailbox-view :
      (a : Bytes) (v : Option Bool) (s : Session) → view (verify_mailbox a v s) ≡ view s
  unfolding verify_mailbox answer out
  verify_mailbox-view a none s = refl
  verify_mailbox-view a (some true) s = refl
  verify_mailbox-view a (some false) s = refl

  verify_host-view :
      (a : Bytes) (h : Query RcptHost) (s : Session) → view (verify_host e a h s) ≡ view s
  unfolding verify_host answer out
  verify_host-view a query_error s = refl
  verify_host-view a record_not_found s = refl
  verify_host-view a (row h) s =
      ground (arith, verify_mailbox-view a (e.directory.is_valid_local_rcpt (to_lower a)) s)

  verify_address-view : (a : Bytes) (s : Session) → view (verify_address e a s) ≡ view s
  unfolding verify_address answer out
  verify_address-view a s =
      let parts = split a at_sign in
      ground
        (arith, verify_host-view (lower_domain parts) (e.directory.rcpthost_get (part 1 parts)) s)

  pub smtp_vrfy-view : (msg : List Bytes) (s : Session) → view (smtp_vrfy e msg s) ≡ view s
  unfolding smtp_vrfy answer out
  smtp_vrfy-view msg s =
      let s' = record s { vrfy_count = s.vrfy_count + 1 } in
      ground
        (arith, verify_address-view (with_postmaster e.cfg.me (remove_brackets (part 1 msg))) s')

  pub smtp_expn-view : (s : Session) → view (smtp_expn s) ≡ view s
  unfolding smtp_expn answer out
  smtp_expn-view s = refl

  pub smtp_quit-view : (s : Session) → view (smtp_quit e s) ≡ view s
  unfolding smtp_quit answer out
  smtp_quit-view s = exit_asap-view e p _ ∙ p.leaves at_quit s

  pub smtp_start_tls-view : (s : Session) → view (smtp_start_tls e s) ≡ view s
  unfolding smtp_start_tls offer_tls end_handshake answer out
  smtp_start_tls-view s = ground arith

  malformed-view : (s : Session) → view (malformed e s) ≡ view s
  unfolding malformed answer out
  malformed-view s = exit_asap-view e p _

  judge_user-view :
      (s : Session) (r : Option User × Option UserError) → view (judge_user e s r) ≡ view s
  unfolding judge_user answer out
  judge_user-view s (u, none) = refl
  judge_user-view s (u, some no_such_user) = exit_asap-view e p _
  judge_user-view s (u, some wrong_password) = exit_asap-view e p _
  judge_user-view s (u, some other_error) = exit_asap-view e p _

  use_credentials-view : (r : Option Bytes) (s : Session) → view (use_credentials e r s) ≡ view s
  unfolding use_credentials
  use_credentials-view none s = malformed-view s
  use_credentials-view (some auth_data) s =
      let t = split auth_data (0 ∷ []) in
      ground (
        arith,
        judge_user-view s (e.directory.user_get (part 1 t) (part 2 t)),
        recover_on_panic-view e p s,
      )

  end_auth_line-view : (r : Option Bytes) (s : Session) → view (end_auth_line e r s) ≡ view s
  unfolding end_auth_line
  end_auth_line-view none s = malformed-view _
  end_auth_line-view (some rest) s = use_credentials-view (decode []) (record s { inbox = rest })

  auth_words-view : (ws : List Bytes) (s : Session) → view (auth_words e ws s) ≡ view s
  unfolding auth_words answer out
  auth_words-view (a ∷ (b ∷ (c ∷ []))) s = use_credentials-view (decode c) s
  auth_words-view (a ∷ (b ∷ [])) s = end_auth_line-view (behind_line s.inbox) _
  auth_words-view _ s = malformed-view s

  pub smtp_auth-view : (raw_msg : Bytes) (s : Session) → view (smtp_auth e raw_msg s) ≡ view s
  unfolding smtp_auth
  smtp_auth-view raw_msg s = auth_words-view (split raw_msg (32 ∷ [])) s

  pub noop-view : (s : Session) → view (noop s) ≡ view s
  unfolding noop answer out
  noop-view s = refl

  pub rset-view : (s : Session) → view (rset s) ≡ blank
  unfolding rset reset answer out
  rset-view s = refl

  -- DATA leaves the transaction as it is, or ends it.
  abbrev Kept : Session → Session → Type 0
  Kept s s' = (view s' ≡ view s) ⊎ (view s' ≡ blank)

  answer_queued-view : (s : Session) (r : Queue × Result Bytes) → Kept s (answer_queued e s r)
  unfolding answer_queued reset answer out
  answer_queued-view s (q, ok id) = inr refl
  answer_queued-view s (q, err) = inr refl
  answer_queued-view s (q, panic) = inl (recover_on_panic-view e p (record s { queue = q }))

  enqueue-view : (r : Session × Bool) → Kept r.0 (enqueue e r)
  unfolding enqueue
  enqueue-view (s, true) = inl refl
  enqueue-view (s, false) =
      let s' = (exec_smtpd_plugins e at_beforequeue s).0 in
      let r =
        tmail.Queue.add_message e.backend s'.current_raw_mail s'.envelope (user_login s.user)
          s'.queue in
      ground (arith, p.leaves at_beforequeue s, answer_queued-view s' r)

  with_message_id-view : (id : Bytes) (s : Session) → view (with_message_id e id s) ≡ view s
  unfolding with_message_id
  with_message_id-view [] s = refl
  with_message_id-view (c ∷ id) s = refl

  complete_headers-view : (id : Option Bytes) (s : Session) → Kept s (complete_headers e id s)
  unfolding complete_headers with_headers
  complete_headers-view none s = inl (recover_on_panic-view e p s)
  complete_headers-view (some id) s =
      let s' = with_headers e (with_message_id e id s) in
      ground (
        arith,
        p.leaves at_data s',
        with_message_id-view id s,
        enqueue-view (exec_smtpd_plugins e at_data s'),
      )

  accept_scanned-view : (r : Scan) (s : Session) → Kept s (accept_scanned e r s)
  unfolding accept_scanned reset answer out
  accept_scanned-view scan_error s = inr refl
  accept_scanned-view (infected virus) s = inr refl
  accept_scanned-view clean s = complete_headers-view (raw_get_message_id s.current_raw_mail) s

  end_data-view : (s : Session) (o : Outcome) → Kept s (end_data e s o)
  unfolding end_data take_read accept_message reset answer out
  end_data-view s (complete q rest) = accept_scanned-view _ (take_read q rest s)
  end_data-view s (too_many_hops q rest) = inr refl
  end_data-view s (too_big q rest) = inr refl
  end_data-view s (stray_newline q rest) = inl refl
  end_data-view s (read_error q) = inl (exit_asap-view e p _)

  pub smtp_data-view : (msg : List Bytes) (s : Session) → Kept s (smtp_data e msg s)
  unfolding smtp_data read_message answer out
  smtp_data-view msg s =
      let s' = answer 354 " End data with <CR><LF>.<CR><LF>" [] s in
      ground (arith, end_data-view s' (read_data (limits_of e) first_reader s'.inbox))

-- ===== src/Smtpd/Data.antt =====
-- DATA of core/smtpd_session.go, around the loop of `Smtpd.Reader`.
use tmail.Prelude.{
  ◌||◌, ◌∷◌, ◌++◌, if◌then◌else◌, [], true, false, Bool, none, some, Option, List, not, ltb, codes,
  Bytes, length,
}
use tmail.Directory.{User}
use tmail.Message.{raw_get_message_id}
use tmail.Message.Fold.{fold_header}
use tmail.Queue
use tmail.Queue.{Queue, Result, ok, err, panic}
use tmail.Smtpd.Mail.{at_sign}
use tmail.Smtpd.Reader.{
  Limits, Outcome, Reader, complete, too_many_hops, too_big, stray_newline, read_error, read_data,
  first_reader,
}
use tmail.Smtpd.Session.{
  Env, Session, Scan, clean, scan_error, infected, out, answer, exec_smtpd_plugins, exit_asap,
  recover_on_panic, reset, at_data, at_beforequeue,
}
use tmail.Text.{crlf, to_lower, split, part}

-- the domain of a new message-id: that of the sender, if its address has one
unfoldable pub id_domain : Bytes → List Bytes → Bytes
id_domain me [] = me
id_domain me (p ∷ []) = me
id_domain me (p ∷ (q ∷ ps)) = to_lower q

unfoldable pub new_message_id : Env → Session → Bytes
unfolding id_domain
new_message_id e s =
    e.now_unix
    ++ (codes "."
        ++ (s.uuid ++ (at_sign ++ id_domain e.cfg.me (split s.envelope.mail_from at_sign))))

unfoldable pub with_message_id : Env → Bytes → Session → Session
unfolding new_message_id
with_message_id e [] s = record s {
  current_raw_mail =
      codes "Message-ID: <" ++ (new_message_id e s ++ (codes ">" ++ (crlf ++ s.current_raw_mail)));
}
with_message_id e (c ∷ id) s = s

-- the address without its port
unfoldable pub host_part : Bytes → Bytes
host_part addr = part 0 (split addr (58 ∷ []))

unfoldable pub reverse_name : Option Bytes → Bytes
reverse_name none = codes "no reverse"
reverse_name (some name) = name

unfoldable pub helo_words : Bytes → Bytes
helo_words [] = []
helo_words (c ∷ helo) = (c ∷ helo) ++ codes " "

unfoldable pub user_words : Option User → Bytes
user_words none = []
user_words (some u) = codes " (authenticated as " ++ (u.login ++ codes ")")

unfoldable pub received_header : Env → Session → Bytes
unfolding host_part reverse_name helo_words user_words
received_header e s =
    let remote = host_part s.remote_addr in
    let local = host_part s.local_addr in
    let by =
      codes " by "
      ++ (local ++ (codes " (" ++ (reverse_name (e.lookup_addr local) ++ codes ")"))) in
    let proto =
      if s.tls
      then codes " with ESMTPS " ++ (e.tls_description ++ codes "; ")
      else codes " whith SMTP; " in
    codes "Received: from "
    ++ (helo_words s.helo
        ++ (codes "("
            ++ (reverse_name (e.lookup_addr remote)
                ++ (codes " ["
                    ++ (remote
                        ++ (codes "])"
                            ++ (user_words s.user
                                ++ (by
                                    ++ (proto
                                        ++ (codes "tmail "
                                            ++ (e.cfg.version
                                                ++ (codes "; "
                                                    ++ (s.uuid
                                                        ++ (codes "; " ++ e.now_822))))))))))))))

unfoldable pub with_headers : Env → Session → Session
unfolding received_header
with_headers e s = record s {
  current_raw_mail =
      codes "X-Env-From: "
      ++ (s.envelope.mail_from
          ++ (crlf ++ (fold_header (received_header e s) ++ (crlf ++ s.current_raw_mail))));
}

unfoldable pub user_login : Option User → Bytes
user_login none = []
user_login (some u) = u.login

-- the reply to the result of `QueueAddMessage`
unfoldable pub answer_queued : Env → Session → Queue × Result Bytes → Session
answer_queued e s (q, ok id) =
    reset (answer 250 " 2.0.0 Ok: queued %s" (id ∷ []) (record s { queue = q }))
answer_queued e s (q, err) = reset (answer 451 " temporary queue error" [] (record s { queue = q }))
answer_queued e s (q, panic) = recover_on_panic e (record s { queue = q })

unfoldable pub enqueue : Env → Session × Bool → Session
unfolding answer_queued user_login
enqueue e (s, true) = s
enqueue e (s, false) =
    let auth = user_login s.user in
    let s' = (exec_smtpd_plugins e at_beforequeue s).0 in
    answer_queued e s' (Queue.add_message e.backend s'.current_raw_mail s'.envelope auth s'.queue)

-- with the result of `RawGetMessageId`
unfoldable pub complete_headers : Env → Option Bytes → Session → Session
unfolding with_message_id with_headers enqueue
complete_headers e none s = recover_on_panic e s
complete_headers e (some id) s =
    enqueue e (exec_smtpd_plugins e at_data (with_headers e (with_message_id e id s)))

-- with the result of the virus scanner
unfoldable pub accept_scanned : Env → Scan → Session → Session
unfolding complete_headers
accept_scanned e scan_error s = reset (answer 454 " 4.3.0 scanner failure" [] s)
accept_scanned e (infected virus) s =
    reset (answer 554 " 5.7.1 message infected by %s" (virus ∷ []) s)
accept_scanned e clean s = complete_headers e (raw_get_message_id s.current_raw_mail) s

unfoldable pub accept_message : Env → Session → Session
unfolding accept_scanned
accept_message e s =
    accept_scanned e (if e.cfg.clamav_enabled then e.scan_stream s.current_raw_mail else clean) s

-- the variables of the loop that belong to the session, and what the connection still gives
unfoldable pub take_read : Reader → Bytes → Session → Session
take_read q rest s = record s { current_raw_mail = q.raw; data_bytes = q.data_bytes; inbox = rest }

-- `purgeConn` reads until the connection ends: nothing is left to read.
unfoldable pub end_data : Env → Session → Outcome → Session
unfolding take_read accept_message
end_data e s (complete q rest) = accept_message e (take_read q rest s)
end_data e s (too_many_hops q rest) =
    reset (answer 554 " 5.4.6 too many hops, this message is looping" [] (take_read q [] s))
end_data e s (too_big q rest) =
    reset (
      answer 552 " 5.3.4 sorry, that message size exceeds my databytes limit" [] (take_read q [] s))
end_data e s (stray_newline q rest) =
    out 451 " You send me LF not preceded by a CR, your SMTP client is broken." []
      (take_read q rest s)
end_data e s (read_error q) =
    exit_asap e
      (answer 454 " something wrong append will reading data from you" [] (take_read q [] s))

unfoldable pub limits_of : Env → Limits
limits_of e = record { max_hops = e.cfg.max_hops; max_data_bytes = e.cfg.max_data_bytes }

unfoldable pub no_rcpt : List Bytes → Bool
no_rcpt [] = true
no_rcpt (r ∷ rs) = false

unfoldable pub read_message : Env → Session → Session
unfolding end_data limits_of
read_message e s = end_data e s (read_data (limits_of e) first_reader s.inbox)

-- `smtpData`
unfoldable pub smtp_data : Env → List Bytes → Session → Session
unfolding no_rcpt read_message
smtp_data e msg s =
    if not s.seen_mail || no_rcpt s.envelope.rcpt_to
    then answer 503 " 5.5.1 command out of sequence" [] s
    else if ltb 1 (length msg)
    then record (out 501 " 5.5.4 invalid syntax" [] s) { smtp_response_code = 551 }
    else read_message e (answer 354 " End data with <CR><LF>.<CR><LF>" [] s)

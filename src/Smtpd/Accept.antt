-- ===== src/Smtpd/Accept.antt =====
-- What the reply 250 to DATA promises: the message is in the queue.
use tmail.Message.{raw_get_message_id, Envelope}
use tmail.Message.Fold.{fold_header}
use tmail.Text.{crlf}
use tmail.Smtpd.Reader.{
  Reader, read_data, first_reader, Outcome, complete, too_many_hops, too_big, stray_newline,
  read_error,
}
use tmail.Prelude.{
  ◌≡◌, [], true, false, refl, arith, Bytes, ◌||◌, ◌∷◌, ◌++◌, ◌∙◌, none, some, Option, List, inl,
  inr, not, ltb, codes, length, append_assoc, Bool-cases, ap,
}
use tmail.Queue.{Queue, Result, ok, err, panic, Backend}
use tmail.Queue.Add.{Queued, add_message_ok}
use tmail.Smtpd.Data.{
  enqueue, answer_queued, user_login, with_message_id, with_headers, complete_headers,
  accept_scanned, end_data, smtp_data, new_message_id, take_read, read_message, limits_of,
  accept_message, received_header, no_rcpt,
}
use tmail.Smtpd.Session.{
  Env, Session, Hook, exec_smtpd_plugins, run_first, exit_asap, recover_on_panic, answer, out,
  reset, at_exitasap, at_beforequeue, at_data, Scan, infected, scan_error, clean,
}

-- No plugin is registered.
pub record NoPlugins (e : Env) : Type 0 where
  pub empty : (h : Hook) → e.plugins h ≡ []

Queued-same :
    {be : Backend} {raw raw' auth auth' u : Bytes} {env env' : Envelope} {q q' t : Queue}
    → raw ≡ raw'
    → env ≡ env'
    → auth ≡ auth'
    → q ≡ q'
    → Queued be raw env auth q t u
    → Queued be raw' env' auth' q' t u
Queued-same a b c d h = rw (← a, ← b, ← c, ← d) h

module _ (e : Env) (p : NoPlugins e) where
  exec_none : (h : Hook) (s : Session) → exec_smtpd_plugins e h s ≡ (s, false)
  unfolding exec_smtpd_plugins run_first
  exec_none h s = rw (p.empty h, run_first)

  exit_asap-code : (s : Session) → (exit_asap e s).smtp_response_code ≡ s.smtp_response_code
  unfolding exit_asap
  exit_asap-code s = ground (arith, exec_none at_exitasap (record s { exiting = true }))

  recover_on_panic-code :
      (s : Session) → (recover_on_panic e s).smtp_response_code ≡ s.smtp_response_code
  unfolding recover_on_panic out
  recover_on_panic-code s = exit_asap-code _

  -- The message of `s` is in the queue of `t`, and `t` still holds it.
  record IsQueued (s t : Session) : Type 0 where
    pub uuid : Bytes
    pub queued :
        Queued e.backend t.current_raw_mail s.envelope (user_login s.user) s.queue t.queue uuid
    pub kept : t.current_raw_mail ≡ s.current_raw_mail

  answer_queued-250 :
      (s : Session) (r : Queue × Result Bytes)
      → s.smtp_response_code ≡ 354
      → tmail.Queue.add_message e.backend s.current_raw_mail s.envelope (user_login s.user) s.queue
        ≡ r
      → (answer_queued e s r).smtp_response_code ≡ 250
      → IsQueued s (answer_queued e s r)
  unfolding answer_queued reset answer out
  answer_queued-250 s (q, ok uuid) c h k = record {
    uuid = uuid;
    queued =
        add_message_ok e.backend s.current_raw_mail uuid s.envelope (user_login s.user) s.queue q h;
    kept = refl;
  }
  answer_queued-250 s (q, err) c h k = absurd (omega arith)
  answer_queued-250 s (q, panic) c h k =
      absurd (omega (arith, recover_on_panic-code (record s { queue = q })))

  enqueue-250 :
      (s : Session)
      → s.smtp_response_code ≡ 354
      → (enqueue e (s, false)).smtp_response_code ≡ 250
      → IsQueued s (enqueue e (s, false))
  unfolding enqueue
  enqueue-250 s c k =
      let r =
        tmail.Queue.add_message e.backend s.current_raw_mail s.envelope (user_login s.user)
          s.queue in
      rw (exec_none at_beforequeue s)
        (answer_queued-250 s r c refl (rw (exec_none at_beforequeue s) at k))

  -- The headers that the server adds stand in front of the message; nothing else changes.
  record IsHeaded (s t : Session) : Type 0 where
    front : Bytes
    grown : t.current_raw_mail ≡ front ++ s.current_raw_mail
    same_envelope : t.envelope ≡ s.envelope
    same_user : t.user ≡ s.user
    same_queue : t.queue ≡ s.queue
    same_code : t.smtp_response_code ≡ s.smtp_response_code

  with_message_id-IsHeaded : (id : Bytes) (s : Session) → IsHeaded s (with_message_id e id s)
  unfolding with_message_id
  with_message_id-IsHeaded [] s = record {
    front = codes "Message-ID: <" ++ (new_message_id e s ++ (codes ">" ++ crlf));
    grown = simp append_assoc;
    same_envelope = refl;
    same_user = refl;
    same_queue = refl;
    same_code = refl;
  }
  with_message_id-IsHeaded (c ∷ id) s = record {
    front = [];
    grown = refl;
    same_envelope = refl;
    same_user = refl;
    same_queue = refl;
    same_code = refl;
  }

  with_headers-IsHeaded : (s : Session) → IsHeaded s (with_headers e s)
  unfolding with_headers
  with_headers-IsHeaded s = record {
    front =
        codes "X-Env-From: "
        ++ (s.envelope.mail_from ++ (crlf ++ (fold_header (received_header e s) ++ crlf)));
    grown = simp append_assoc;
    same_envelope = refl;
    same_user = refl;
    same_queue = refl;
    same_code = refl;
  }

  -- The message that `s` holds is in the queue of `t` behind the headers `front`.
  pub record IsAccepted (s t : Session) : Type 0 where
    pub uuid : Bytes
    pub front : Bytes
    pub queued :
        Queued e.backend
          (front ++ s.current_raw_mail)
          s.envelope
          (user_login s.user)
          s.queue
          t.queue
          uuid

  complete_headers-250 :
      (id : Option Bytes) (s : Session)
      → s.smtp_response_code ≡ 354
      → (complete_headers e id s).smtp_response_code ≡ 250
      → IsAccepted s (complete_headers e id s)
  unfolding complete_headers
  complete_headers-250 none s c k = absurd (omega (arith, recover_on_panic-code s))
  complete_headers-250 (some id) s c k =
      let m = with_message_id e id s in
      let a = with_message_id-IsHeaded id s in
      let b = with_headers-IsHeaded m in
      let t = with_headers e m in
      let q = enqueue-250 t (b.same_code ∙ a.same_code ∙ c) (rw (exec_none at_data t) at k) in
      let spelled : t.current_raw_mail ≡ (b.front ++ a.front) ++ s.current_raw_mail =
        b.grown ∙ rw (a.grown, append_assoc) in
      rw (exec_none at_data t) (record {
        uuid = q.uuid;
        front = b.front ++ a.front;
        queued =
            Queued-same (q.kept ∙ spelled) (b.same_envelope ∙ a.same_envelope)
              (ap user_login (b.same_user ∙ a.same_user)) (b.same_queue ∙ a.same_queue) q.queued;
      })

  accept_scanned-250 :
      (r : Scan) (s : Session)
      → s.smtp_response_code ≡ 354
      → (accept_scanned e r s).smtp_response_code ≡ 250
      → IsAccepted s (accept_scanned e r s)
  unfolding accept_scanned reset answer out
  accept_scanned-250 scan_error s c k = absurd (omega arith)
  accept_scanned-250 (infected virus) s c k = absurd (omega arith)
  accept_scanned-250 clean s c k =
      complete_headers-250 (raw_get_message_id s.current_raw_mail) s c k

  -- What the reply 250 to DATA says of the message and the queue.
  pub record IsDelivered (s t : Session) : Type 0 where
    pub reader : Reader
    pub rest : Bytes
    pub ended : read_data (limits_of e) first_reader s.inbox ≡ complete reader rest
    pub front : Bytes
    pub uuid : Bytes
    pub queued :
        Queued e.backend (front ++ reader.raw) s.envelope (user_login s.user) s.queue t.queue uuid

  end_data-250 :
      (s : Session) (o : Outcome)
      → s.smtp_response_code ≡ 354
      → read_data (limits_of e) first_reader s.inbox ≡ o
      → (end_data e s o).smtp_response_code ≡ 250
      → IsDelivered s (end_data e s o)
  unfolding end_data take_read accept_message reset answer out
  end_data-250 s (complete q rest) c h k =
      let a = accept_scanned-250 _ (take_read q rest s) c k in
      record {
        reader = q;
        rest = rest;
        ended = h;
        front = a.front;
        uuid = a.uuid;
        queued = a.queued;
      }
  end_data-250 s (too_many_hops q rest) c h k = absurd (omega arith)
  end_data-250 s (too_big q rest) c h k = absurd (omega arith)
  end_data-250 s (stray_newline q rest) c h k = absurd (omega arith)
  end_data-250 s (read_error q) c h k = absurd (
      omega (
        arith,
        exit_asap-code
            (answer 454 " something wrong append will reading data from you" [] (take_read q [] s)),
      ))

  -- Only if the message was read to its dot line, within the limits, and is in the store and in the
  -- table for every recipient of the envelope, and published, is DATA answered by 250. No plugin is
  -- registered.
  pub data_250-IsDelivered :
      (msg : List Bytes) (s : Session)
      → (smtp_data e msg s).smtp_response_code ≡ 250
      → IsDelivered s (smtp_data e msg s)
  unfolding smtp_data read_message answer out
  data_250-IsDelivered msg s k =
      let s' = answer 354 " End data with <CR><LF>.<CR><LF>" [] s in
      elim (Bool-cases (not s.seen_mail || no_rcpt s.envelope.rcpt_to)) [
        | inl early ↦ absurd (omega (arith, rw early at k))
        | inr begun ↦ elim (Bool-cases (ltb 1 (length msg))) [
          | inl long ↦ absurd (omega (arith, rw (begun, long) at k))
          | inr short ↦
              let d =
                end_data-250 s' (read_data (limits_of e) first_reader s.inbox) refl refl
                  (rw (begun, short) at k) in
              rw (begun, short)
                (record {
                  reader = d.reader;
                  rest = d.rest;
                  ended = d.ended;
                  front = d.front;
                  uuid = d.uuid;
                  queued = d.queued;
                })
        ]
      ]

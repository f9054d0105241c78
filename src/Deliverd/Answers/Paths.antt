-- ===== src/Deliverd/Answers/Paths.antt =====
-- The answers to the message bus on the paths of `deliverLocal` and of `processMsg`.
use tmail.Queue.Panic.{add_message-ne-panic}
use tmail.Text.{part, split}
use tmail.Message.{raw_get_message_id, Envelope}
use tmail.Prelude.{
  ◌≡◌, ◌≢◌, ◌∷◌, ◌==◌, [], ℕ, suc, zero, true, false, Bool, none, some, Option, refl, arith, codes,
  Bytes, ◌+◌,
}
use tmail.Deliverd.{Delivery, World, save, requeue_after}
use tmail.Deliverd.Answers.{
  Answers, RendersWell, discard-Answers, die_ok-Answers, die_perm-Answers, die_temp-Answers,
  requeue-Answers, reply_bus-Answers, bounce-Answers,
}
use tmail.Queue
use tmail.Queue.{Queue, Result, ok, err, panic, QMessage}
use tmail.Directory.{Query, row, record_not_found, query_error, Alias, User}
use tmail.Deliverd.Local.{
  LocalWorld, Run, exited, wait_error, Lda, lda_ok, lda_code, end_lda, to_mailbox, end_forward,
  forward, end_pipe, to_alias, to_catchall, domain_alias, email_alias, to_user, deliver_local,
  with_trace, raw_of, alias_sender, alias_rcpts,
}
use tmail.Deliverd.Answers.Remote.{GoesOn, deliver_remote-Answers}
use tmail.Deliverd.Process.{
  Job, Fetched, updated, missing, fetch_error, StoreRead, no_store, not_in_store, not_read,
  raw_mail, dispatch, with_raw, by_status, fetch_message, is_local_delivery, process_msg,
  with_message,
}

-- The raw message of a delivery has no header that makes `RawGetMessageId` panic.
abbrev pub IsReadable : Delivery → Type 0
IsReadable d = raw_get_message_id (raw_of d.raw_data) ≢ none

module _ (w : World) (good : RendersWell w) where
  end_lda-Answers : (r : Lda) (d : Delivery) → Answers d (end_lda w r d)
  unfolding end_lda
  end_lda-Answers lda_ok d = die_ok-Answers w d
  end_lda-Answers (lda_code n) d = ground (
    arith,
    die_perm-Answers w good (codes "the destination user was not found") d,
    die_perm-Answers w good (codes "the destination user is over quota") d,
    die_temp-Answers w good (codes "dovecot-lda failed") d,
  )
  end_lda-Answers _ d = die_temp-Answers w good (codes "dovecot-lda could not be run") d

  to_mailbox-Answers :
      (l : LocalWorld) (to : Bytes) (d : Delivery) → Answers d (to_mailbox w l to d)
  unfolding to_mailbox
  to_mailbox-Answers l to d =
      let raw = with_trace w to d (raw_of d.raw_data) in
      end_lda-Answers (l.run_lda to raw) (record d { raw_data = some raw })

  end_forward-Answers :
      (r : Queue × Result Bytes) (d : Delivery) → r.1 ≢ panic → Answers d (end_forward w r d)
  unfolding end_forward
  end_forward-Answers (q, ok id) d n = die_ok-Answers w (record d { queue = q })
  end_forward-Answers (q, err) d n =
      die_temp-Answers w good (codes "unable to requeue aliased msg") (record d { queue = q })
  end_forward-Answers (q, panic) d n = absurd (n refl)

  forward-Answers : (a : Alias) (d : Delivery) → IsReadable d → Answers d (forward w a d)
  unfolding forward
  forward-Answers a d n =
      let local_part = part 0 (split d.qmsg.rcpt_to (64 ∷ [])) in
      let env : Envelope = record {
        mail_from = alias_sender a d.qmsg.mail_from;
        rcpt_to = alias_rcpts a local_part;
      } in
      let r = Queue.add_message w.backend (raw_of d.raw_data) env [] d.queue in
      ground (
        arith,
        die_ok-Answers w d,
        end_forward-Answers r d
            (add_message-ne-panic w.backend (raw_of d.raw_data) env [] d.queue n),
      )

  end_pipe-Answers :
      (a : Alias) (r : Run) (d : Delivery) → IsReadable d → Answers d (end_pipe w a r d)
  unfolding end_pipe
  end_pipe-Answers a (exited n) d k = ground (
    arith,
    forward-Answers a d k,
    die_temp-Answers w good (codes "cmd failed with exit code 4 (temp failure)") d,
    die_perm-Answers w good (codes "cmd failed") d,
  )
  end_pipe-Answers a wait_error d k =
      die_perm-Answers w good (codes "cmd oops something went wrong") d
  end_pipe-Answers a _ d k = die_temp-Answers w good (codes "unable to exec pipe") d

  to_alias-Answers :
      (l : LocalWorld) (a : Alias) (d : Delivery) → IsReadable d → Answers d (to_alias w l a d)
  unfolding to_alias
  to_alias-Answers l a d k =
      ground (
        arith,
        forward-Answers a d k,
        end_pipe-Answers a (l.run_pipe a.pipe (raw_of d.raw_data)) d k,
      )

  to_catchall-Answers :
      (l : LocalWorld) (q : Query User) (d : Delivery) → Answers d (to_catchall w l q d)
  unfolding to_catchall
  to_catchall-Answers l (row u) d = to_mailbox-Answers l u.login d
  to_catchall-Answers l _ d = die_temp-Answers w good (codes "unable to search a catchall") d

  domain_alias-Answers :
      (l : LocalWorld) (domain : Bytes) (q : Query Alias) (d : Delivery)
      → IsReadable d
      → Answers d (domain_alias w l domain q d)
  unfolding domain_alias
  domain_alias-Answers l domain query_error d k =
      die_temp-Answers w good (codes "unable to check alias") d
  domain_alias-Answers l domain record_not_found d k =
      to_catchall-Answers l (l.catchall_for_domain domain) d
  domain_alias-Answers l domain (row a) d k = to_alias-Answers l a d k

  email_alias-Answers :
      (l : LocalWorld) (q : Query Alias) (d : Delivery)
      → IsReadable d
      → Answers d (email_alias w l q d)
  unfolding email_alias
  email_alias-Answers l query_error d k = die_temp-Answers w good (codes "unable to check alias") d
  email_alias-Answers l record_not_found d k =
      let domain = part 1 (split d.qmsg.rcpt_to (64 ∷ [])) in
      domain_alias-Answers l domain (l.alias_get domain) d k
  email_alias-Answers l (row a) d k = to_alias-Answers l a d k

  to_user-Answers :
      (l : LocalWorld) (q : Query User) (d : Delivery) → IsReadable d → Answers d (to_user w l q d)
  unfolding to_user
  to_user-Answers l query_error d k =
      die_temp-Answers w good (codes "unable to check if it is a real user") d
  to_user-Answers l record_not_found d k = email_alias-Answers l (l.alias_get d.qmsg.rcpt_to) d k
  to_user-Answers l (row u) d k = ground (
    arith,
    to_mailbox-Answers l d.qmsg.rcpt_to d,
    email_alias-Answers l (l.alias_get d.qmsg.rcpt_to) d k,
  )

  deliver_local-Answers :
      (l : LocalWorld) (d : Delivery) → IsReadable d → Answers d (deliver_local w l d)
  unfolding deliver_local
  deliver_local-Answers l d k = to_user-Answers l (l.user_get_by_login d.qmsg.rcpt_to) d k

  -- What the job gives is readable, and the plugins let a remote delivery go on.
  pub record AnswersOnce (j : Job) : Type 0 where
    pub readable : (raw : Bytes) → j.store_read ≡ raw_mail raw → raw_get_message_id raw ≢ none
    pub remote_goes_on : GoesOn j.remote

  module _ (j : Job) (once : AnswersOnce j) where
    dispatch-Answers :
        (r : Option Bool) (d : Delivery) → IsReadable d → Answers d (dispatch w j r d)
    unfolding dispatch
    dispatch-Answers none d k =
        die_temp-Answers w good (codes "unable to check if it's local delivery") d
    dispatch-Answers (some true) d k =
        deliver_local-Answers j.local (record d { is_local = true }) k
    dispatch-Answers (some false) d k =
        deliver_remote-Answers w good j.remote once.remote_goes_on (record d { is_local = false })

    with_raw-Answers :
        (b : Bool) (r : StoreRead) (d : Delivery)
        → j.store_read ≡ r
        → Answers d (with_raw w j b r d)
    unfolding with_raw
    with_raw-Answers b no_store d e = requeue-Answers w 2 d
    with_raw-Answers b not_in_store d e =
        die_temp-Answers w good (codes "unable to retrieve raw mail from store") d
    with_raw-Answers b not_read d e =
        die_temp-Answers w good (codes "unable to read raw mail from dataReader") d
    with_raw-Answers b (raw_mail raw) d e =
        let d' = record d { raw_data = some raw } in
        ground (
          arith,
          bounce-Answers w good (codes "bounced by admin") d',
          dispatch-Answers (is_local_delivery j.rcpthost_get d'.qmsg.rcpt_to) d'
              (unfold raw_of in once.readable raw e),
        )

    by_status-Answers : (d : Delivery) → Answers d (by_status w j d)
    unfolding by_status save
    by_status-Answers d =
        let d' = save w (record (d.qmsg) { status = 0 }) d in
        ground (
          arith,
          requeue-Answers w 2 d,
          reply_bus-Answers w (requeue_after 600) d,
          discard-Answers w d',
          with_raw-Answers (d.qmsg.status == 3) j.store_read d' refl,
        )

    fetch_message-Answers : (tries n : ℕ) (d : Delivery) → Answers d (fetch_message w j tries n d)
    unfolding fetch_message
    fetch_message-Answers zero n d = discard-Answers w d
    fetch_message-Answers (suc tries) n d =
        go (j.fetch n) refl (fetch_message-Answers tries (n + 1) d)
      where
        go :
            (f : Fetched)
            → j.fetch n ≡ f
            → Answers d (fetch_message w j tries (n + 1) d)
            → Answers d (fetch_message w j (suc tries) n d)
        go (updated q) h again = rw (h, fetch_message) (by_status-Answers (record d { qmsg = q }))
        go missing h again = rw (h, fetch_message) again
        go fetch_error h again = rw (h, fetch_message) (requeue-Answers w 2 d)

    -- Every path of `processMsg` through to its end calls exactly one of `Finish` and
    -- `RequeueWithoutBackoff` on the message, and calls it once, for a message that can be
    -- decoded: the answers are those given before with one more behind them. It is supposed
    -- that each call of the database, of the store and of the remote host returns, with
    -- whatever result, that the plugins at `remoteinit` let the delivery go on and say nothing
    -- to the bus, and that no message-id header of the raw message or of a bounce lacks its
    -- colon.
    pub process_msg-Answers :
        (q : QMessage) (d : Delivery) → j.unmarshalled ≡ some q → Answers d (process_msg w j d)
    unfolding process_msg with_message
    process_msg-Answers q d e =
        rw (e, with_message) (fetch_message-Answers 2 0 (record d { qmsg = q }))

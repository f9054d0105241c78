-- ===== src/Deliverd/Bounces.antt =====
-- `bounce` of core/deliverd_delivery.go: which messages a failed delivery makes.
use Queue.{err, panic}
use tmail.Text.Utils.{unix2dos}
use tmail.Queue.Add.{mail_of}
use tmail.Deliverd.{
  World, requeue, end_delete, discard, end_bounce, Delivery, enqueue_bounce, bounce, save,
  triple_bounce_sender, ok, raw_or_notice,
}
use tmail.Prelude.{
  Bytes, ◌≡◌, ◌⊎◌, ◌&&◌, ◌∷◌, ◌++◌, ◌∙◌, [], ℕ, true, false, Bool, none, some, Option, List, refl,
  inl, inr, arith, Bool-cases, ◌==◌, length, eq_bytes, eq_bytes_iff,
}
use tmail.Queue
use tmail.Queue.{
  Queue, QMessage, Backend, Removal, remove_raw, DeleteFaults, removed, delete, publish_rows,
  add_rows, store_message, add_message, remove_row, create_all, publish_all, Result, withdraw,
  store_put, save_in_db, new_row, Mail,
}
use tmail.Message.{Envelope, raw_get_message_id}

-- At most one message more is published, from `sender` and to `rcpt`.
pub record OneMore (sender rcpt : Bytes) (topic topic' : List QMessage) : Type 0 where
  pub row : QMessage
  pub grown : topic' ≡ topic ++ row ∷ []
  pub from_sender : row.mail_from ≡ sender
  pub to_rcpt : row.rcpt_to ≡ rcpt

abbrev AtMostOne : Bytes → Bytes → List QMessage → List QMessage → Type 0
AtMostOne sender rcpt topic topic' = (topic' ≡ topic) ⊎ OneMore sender rcpt topic topic'

remove_raw-topic : (r : Removal) (u : Bytes) (s : Queue) → (remove_raw r u s).0.topic ≡ s.topic
unfolding remove_raw
remove_raw-topic removed u s = refl
remove_raw-topic _ u s = refl

delete-topic :
    (f : DeleteFaults) (q : QMessage) (s : Queue) → (Queue.delete f q s).0.topic ≡ s.topic
unfolding delete
delete-topic f q s =
    ground (arith, remove_raw-topic f.removal q.uuid (record s { table = remove_row q.id s.table }))

undo_raw-topic : (be : Backend) (u : Bytes) (s : Queue) → (Queue.undo_raw be u s).topic ≡ s.topic
undo_raw-topic be u s = ground arith

withdraw-topic :
    (be : Backend) (k : ℕ) (q : QMessage) (s : Queue) → (withdraw be k q s).topic ≡ s.topic
unfolding withdraw
withdraw-topic be k q s = ground (arith, undo_raw-topic be q.uuid s)

publish_one :
    (be : Backend) (uuid rcpt : Bytes) (m : Mail) (s : Queue)
    → AtMostOne m.mail_from rcpt s.topic
        (publish_rows be uuid (create_all be m 0 (rcpt ∷ []) [] s)).0.topic
unfolding publish_rows create_all publish_all new_row
publish_one be uuid rcpt m s = elim (Bool-cases (be.created 0)) [
  | inl made ↦ elim (Bool-cases (be.marshalled 0 && be.published 0)) [
    | inl sent ↦
        rw (made, sent)
          (inr (record {
            row = new_row m rcpt s.next_id;
            grown = refl;
            from_sender = refl;
            to_rcpt = refl;
          }))
    | inr unsent ↦
        let q = new_row m rcpt s.next_id in
        rw (made, unsent) (inl (withdraw-topic be 1 q (Queue.add_row q s)))
  ]
  | inr failed ↦ rw failed (inl (undo_raw-topic be m.uuid s))
]

abbrev one_rcpt : Bytes → Bytes → Envelope
one_rcpt sender rcpt = record { mail_from = sender; rcpt_to = rcpt ∷ [] }

module _ (be : Backend) (raw sender rcpt auth : Bytes) where
  add_rows-AtMostOne :
      (uuid : Bytes) (mid : Option Bytes) (s : Queue)
      → AtMostOne sender rcpt s.topic (add_rows be uuid (one_rcpt sender rcpt) auth mid s).0.topic
  unfolding add_rows
  add_rows-AtMostOne uuid none s = inl refl
  add_rows-AtMostOne uuid (some mid) s =
      publish_one be uuid rcpt (mail_of be uuid (one_rcpt sender rcpt) auth mid) s

  store_message-AtMostOne :
      (new : Option Bytes) (s : Queue)
      → AtMostOne sender rcpt s.topic
          (store_message be raw (one_rcpt sender rcpt) auth new s).0.topic
  unfolding store_message
  store_message-AtMostOne none s = inl refl
  store_message-AtMostOne (some uuid) s = elim (Bool-cases be.put_ok) [
    | inl put ↦ rw put (
        add_rows-AtMostOne uuid (raw_get_message_id raw)
          (record s { store = store_put uuid raw s.store }))
    | inr failed ↦ rw failed (inl refl)
  ]

  add_message-AtMostOne :
      (s : Queue)
      → AtMostOne sender rcpt s.topic (add_message be raw (one_rcpt sender rcpt) auth s).0.topic
  unfolding add_message
  add_message-AtMostOne s = elim (Bool-cases be.store_ready) [
    | inl ready ↦ rw ready (store_message-AtMostOne be.new_uuid s)
    | inr failed ↦ rw failed (inl refl)
  ]

module _ (w : World) where
  requeue-topic : (status : ℕ) (d : Delivery) → (requeue w status d).queue.topic ≡ d.queue.topic
  unfolding requeue save save_in_db
  requeue-topic status d = ground arith

  end_delete-topic :
      (status : ℕ) (r : Queue × Bool) (d : Delivery)
      → (end_delete w status r d).queue.topic ≡ r.0.topic
  unfolding end_delete
  end_delete-topic status (q, true) d = refl
  end_delete-topic status (q, false) d = requeue-topic status (record d { queue = q })

  pub discard-topic : (d : Delivery) → (discard w d).queue.topic ≡ d.queue.topic
  unfolding discard
  discard-topic d =
      end_delete-topic 1 (Queue.delete w.delete_faults d.qmsg d.queue) d
      ∙ delete-topic w.delete_faults d.qmsg d.queue

  end_bounce-topic :
      (r : Queue × Result Bytes) (d : Delivery) → (end_bounce w r d).queue.topic ≡ r.0.topic
  unfolding end_bounce
  end_bounce-topic (q, ok id) d =
      end_delete-topic 1 (Queue.delete w.delete_faults d.qmsg q) (record d { queue = q })
      ∙ delete-topic w.delete_faults d.qmsg q
  end_bounce-topic (q, err) d = requeue-topic 3 (record d { queue = q })
  end_bounce-topic (q, panic) d = refl

  -- What a bounce publishes.
  pub record BouncedBy (d t : Delivery) : Type 0 where
    pub at_most_one : AtMostOne [] d.qmsg.mail_from d.queue.topic t.queue.topic
    pub none_for_null :
        (d.qmsg.mail_from ≡ []) ⊎ (d.qmsg.mail_from ≡ triple_bounce_sender)
        → t.queue.topic ≡ d.queue.topic

  enqueue_bounce-AtMostOne :
      (r : Option Bytes) (d : Delivery)
      → AtMostOne [] d.qmsg.mail_from d.queue.topic (enqueue_bounce w r d).queue.topic
  unfolding enqueue_bounce
  enqueue_bounce-AtMostOne none d = inl (requeue-topic 3 d)
  enqueue_bounce-AtMostOne (some text) d =
      let r =
        Queue.add_message w.backend (unix2dos text) (one_rcpt [] d.qmsg.mail_from) [] d.queue in
      rw (end_bounce-topic r d)
        (add_message-AtMostOne w.backend (unix2dos text) [] d.qmsg.mail_from [] d.queue)

  -- A bounce publishes at most one message, from the null sender to the sender of the message that
  -- failed, whatever call fails; and none at all for a message from the null sender or from `#@[]`,
  -- so that bounces make no loop.
  pub bounce-BouncedBy : (msg : Bytes) (d : Delivery) → BouncedBy d (bounce w msg d)
  unfolding bounce
  bounce-BouncedBy msg d =
      let raw = raw_or_notice d.raw_data in
      let sender = d.qmsg.mail_from in
      let nothing = discard-topic d in
      elim (Bool-cases (length sender == 0)) [
        | inl null ↦ rw null (record { at_most_one = inl nothing; none_for_null = λ _. nothing })
        | inr some_sender ↦ elim (Bool-cases (eq_bytes sender triple_bounce_sender)) [
          | inl triple ↦
              rw (some_sender, triple)
                (record { at_most_one = inl nothing; none_for_null = λ _. nothing })
          | inr other ↦
              rw (some_sender, other)
                (record {
                  at_most_one =
                      enqueue_bounce-AtMostOne (w.render_bounce sender d.qmsg.rcpt_to msg raw)
                        (record d { raw_data = some raw });
                  none_for_null =
                      λ h. absurd (ground (arith, h, eq_bytes_iff sender triple_bounce_sender));
                })
        ]
      ]

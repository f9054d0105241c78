-- ===== src/Deliverd/Answers.antt =====
-- What a delivery says to the message bus.
pub mod Paths
pub mod Remote
use Queue.{err}
use tmail.Queue.Panic.{add_message-ne-panic}
use tmail.Text.Utils.{unix2dos}
use tmail.Message.{raw_get_message_id}
use tmail.Prelude.{
  List, sym, ap, ◌≡◌, ◌∷◌, [], ℕ, true, false, Bool, arith, ◌≢◌, ◌++◌, none, some, Option, refl,
  Bytes,
}
use tmail.Deliverd.{
  Delivery, World, Answer, finish, requeue_after, reply_bus, save, requeue, end_delete, discard,
  die_ok, delay_of, end_bounce, enqueue_bounce, bounce, die_perm, die_temp, raw_or_notice,
  too_long_notice, ok,
}
use tmail.Queue
use tmail.Queue.{Queue, Result, panic}

unfoldable pub last_answer : List Answer → Answer
last_answer [] = finish
last_answer (a ∷ []) = a
last_answer (a ∷ b ∷ rest) = last_answer (b ∷ rest)

last_answer-append : (xs : List Answer) (a : Answer) → last_answer (xs ++ a ∷ []) ≡ a
unfolding last_answer
last_answer-append [] a = refl
last_answer-append (x ∷ []) a = refl
last_answer-append (x ∷ y ∷ rest) a = last_answer-append (y ∷ rest) a

-- The answers of before, and one more behind them.
abbrev pub Answers : Delivery → Delivery → Type 0
Answers d t = t.answers ≡ d.answers ++ last_answer t.answers ∷ []

answers_one : (xs : List Answer) (a : Answer) → xs ++ a ∷ [] ≡ xs ++ last_answer (xs ++ a ∷ []) ∷ []
answers_one xs a = sym (ap (λ b. xs ++ b ∷ []) (last_answer-append xs a))

module _ (w : World) where
  reply_bus-Answers : (a : Answer) (d : Delivery) → Answers d (reply_bus a d)
  reply_bus-Answers a d = answers_one d.answers (a)

  pub requeue-Answers : (status : ℕ) (d : Delivery) → Answers d (requeue w status d)
  unfolding requeue save
  requeue-Answers status d = answers_one d.answers (requeue_after (delay_of w))

  end_delete-Answers :
      (status : ℕ) (r : Queue × Bool) (d : Delivery) → Answers d (end_delete w status r d)
  unfolding end_delete
  end_delete-Answers status (q, true) d = reply_bus-Answers finish (record d { queue = q })
  end_delete-Answers status (q, false) d = requeue-Answers status (record d { queue = q })

  pub discard-Answers : (d : Delivery) → Answers d (discard w d)
  unfolding discard
  discard-Answers d = end_delete-Answers 1 (Queue.delete w.delete_faults d.qmsg d.queue) d

  pub die_ok-Answers : (d : Delivery) → Answers d (die_ok w d)
  unfolding die_ok
  die_ok-Answers d = answers_one d.answers (finish)

-- A bounce that the template renders has no header that makes `RawGetMessageId` panic.
pub record RendersWell (w : World) : Type 0 where
  pub readable :
      (from to msg raw t : Bytes)
      → w.render_bounce from to msg raw ≡ some t
      → raw_get_message_id (unix2dos t) ≢ none

module _ (w : World) (good : RendersWell w) where
  end_bounce-Answers :
      (r : Queue × Result Bytes) (d : Delivery) → r.1 ≢ panic → Answers d (end_bounce w r d)
  unfolding end_bounce
  end_bounce-Answers (q, ok id) d n =
      let d' = record d { queue = q } in
      end_delete-Answers w 1 (Queue.delete w.delete_faults d'.qmsg d'.queue) d'
  end_bounce-Answers (q, err) d n = requeue-Answers w 3 (record d { queue = q })
  end_bounce-Answers (q, panic) d n = absurd (n refl)

  enqueue_bounce-Answers :
      (r : Option Bytes) (d : Delivery)
      → ((t : Bytes) → r ≡ some t → raw_get_message_id (unix2dos t) ≢ none)
      → Answers d (enqueue_bounce w r d)
  unfolding enqueue_bounce
  enqueue_bounce-Answers none d n = requeue-Answers w 3 d
  enqueue_bounce-Answers (some t) d n =
      end_bounce-Answers _ d (add_message-ne-panic w.backend (unix2dos t) _ [] d.queue (n t refl))

  pub bounce-Answers : (msg : Bytes) (d : Delivery) → Answers d (bounce w msg d)
  unfolding bounce
  bounce-Answers msg d =
      let raw = raw_or_notice d.raw_data in
      let d' = record d { raw_data = some raw } in
      ground (
        arith,
        discard-Answers w d,
        enqueue_bounce-Answers (w.render_bounce d.qmsg.mail_from d.qmsg.rcpt_to msg raw) d'
            (good.readable d.qmsg.mail_from d.qmsg.rcpt_to msg raw),
      )

  pub die_perm-Answers : (msg : Bytes) (d : Delivery) → Answers d (die_perm w msg d)
  unfolding die_perm
  die_perm-Answers msg d = bounce-Answers msg d

  pub die_temp-Answers : (msg : Bytes) (d : Delivery) → Answers d (die_temp w msg d)
  unfolding die_temp
  die_temp-Answers msg d = ground (
    arith,
    discard-Answers w d,
    requeue-Answers w 2 d,
    die_perm-Answers (msg ++ too_long_notice) d,
  )

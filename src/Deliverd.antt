-- ===== src/Deliverd.antt =====
-- core/deliverd_delivery.go: one attempt to deliver a queued message.
-- The state of an attempt is `Delivery`; `answers` holds what was said to the message bus. What
-- comes from outside in the course of the attempt is in `World`. Times are in seconds, and the
-- lifetimes of the configuration in minutes.
pub mod Answers
pub mod Bounces
pub mod Delay
pub mod Keeps
pub mod Local
pub mod Process
pub mod Remote
pub mod Routes
pub mod Success
use tmail.Text.{cr, lf}
use tmail.Prelude.{
  ◌+◌, ◌*◌, ◌%◌, ◌&&◌, ◌∷◌, ◌++◌, ◌==◌, if◌then◌else◌, [], ℕ, true, false, Bool, none, some, Option,
  List, ltb, leb, codes, Bytes, length, eq_bytes,
}
use tmail.Message.{Envelope}
use tmail.Queue
use tmail.Queue.{Queue, QMessage, DeleteFaults, Backend, Result, ok, err, panic}
use tmail.Text.Utils.{unix2dos}

pub data Answer : Type 0 where
  finish : Answer
  requeue_after : ℕ → Answer

pub record Delivery : Type 0 where
  pub id : Bytes
  pub qmsg : QMessage
  pub raw_data : Option Bytes
  pub is_local : Bool
  pub success : Bool
  pub queue : Queue
  pub answers : List Answer

pub record World : Type 0 where
  pub now : ℕ
  pub now_822 : Bytes
  pub queue_lifetime : ℕ
  pub queue_bounces_lifetime : ℕ
  pub attempts : ℕ  -- uint16
  pub rand_180 : ℕ
  pub rand_2000 : ℕ
  pub delete_faults : DeleteFaults
  pub saved : Bool
  pub backend : Backend
  pub render_bounce : Bytes → Bytes → Bytes → Bytes → Option Bytes

abbrev pub reply_bus : Answer → Delivery → Delivery
reply_bus a d = record d { answers = d.answers ++ a ∷ [] }

-- The product is taken in `uint16`.
unfoldable pub short_delay : ℕ → ℕ → ℕ
short_delay attempts rand = attempts * (rand + 60) % 65536

unfoldable pub delay_of : World → ℕ
unfolding short_delay
delay_of w =
    let delay = short_delay w.attempts w.rand_180 in
    if leb 3600 delay then w.rand_2000 + 1599 else delay

-- `SaveInDb` on the message of the delivery
unfoldable pub save : World → QMessage → Delivery → Delivery
save w q d =
    let (q', queue) = Queue.save_in_db w.saved w.now q d.queue in
    record d { qmsg = q'; queue = queue }

-- `requeue` with its status
unfoldable pub requeue : World → ℕ → Delivery → Delivery
unfolding delay_of save
requeue w status d =
    let delay = delay_of w in
    reply_bus (requeue_after delay)
      (save w (record (d.qmsg) { next_delivery_scheduled_at = w.now + delay; status = status }) d)

-- What follows a call of `Delete`.
unfoldable pub end_delete : World → ℕ → Queue × Bool → Delivery → Delivery
unfolding requeue
end_delete w status (queue, true) d = reply_bus finish (record d { queue = queue })
end_delete w status (queue, false) d = requeue w status (record d { queue = queue })

-- `discard`
unfoldable pub discard : World → Delivery → Delivery
unfolding end_delete
discard w d = end_delete w 1 (Queue.delete w.delete_faults d.qmsg d.queue) d

-- `dieOk`: the message bus is told that all is done also where the row could not be deleted
unfoldable pub die_ok : World → Delivery → Delivery
die_ok w d =
    reply_bus finish
      (record d { success = true; queue = (Queue.delete w.delete_faults d.qmsg d.queue).0 })

abbrev pub triple_bounce_sender : Bytes
triple_bounce_sender = codes "#@[]"

unfoldable pub raw_or_notice : Option Bytes → Bytes
raw_or_notice none = codes "Raw mail was not found in the store"
raw_or_notice (some raw) = raw

-- with the result of `QueueAddMessage`; a panic is caught by `processMsg`, which says nothing to
-- the bus
unfoldable pub end_bounce : World → Queue × Result Bytes → Delivery → Delivery
unfolding end_delete
end_bounce w (queue, ok id) d =
    let d' = record d { queue = queue } in
    end_delete w 1 (Queue.delete w.delete_faults d'.qmsg d'.queue) d'
end_bounce w (queue, err) d = requeue w 3 (record d { queue = queue })
end_bounce w (queue, panic) d = record d { queue = queue }

unfoldable pub enqueue_bounce : World → Option Bytes → Delivery → Delivery
unfolding requeue end_bounce
enqueue_bounce w none d = requeue w 3 d
enqueue_bounce w (some text) d =
    let env : Envelope = record { mail_from = []; rcpt_to = d.qmsg.mail_from ∷ [] } in
    end_bounce w (Queue.add_message w.backend (unix2dos text) env [] d.queue) d

-- `bounce`
unfoldable pub bounce : World → Bytes → Delivery → Delivery
unfolding discard enqueue_bounce raw_or_notice
bounce w err_msg d =
    let raw = raw_or_notice d.raw_data in
    let d' = record d { raw_data = some raw } in
    if length d.qmsg.mail_from == 0
    then discard w d
    else if eq_bytes d.qmsg.mail_from triple_bounce_sender
    then discard w d
    else enqueue_bounce w (w.render_bounce d.qmsg.mail_from d.qmsg.rcpt_to err_msg raw) d'

-- `diePerm`
unfoldable pub die_perm : World → Bytes → Delivery → Delivery
unfolding bounce
die_perm w msg d = bounce w msg d

abbrev pub too_long_notice : Bytes
too_long_notice =
    cr ∷ lf ∷ codes "I'm not going to try again, this message has been in the queue for too long."

-- `dieTemp`
unfoldable pub die_temp : World → Bytes → Delivery → Delivery
unfolding discard requeue die_perm
die_temp w msg d =
    if length d.qmsg.mail_from == 0 && ltb (d.qmsg.added_at + w.queue_bounces_lifetime * 60) w.now
    then discard w d
    else if ltb w.now (d.qmsg.added_at + w.queue_lifetime * 60)
    then requeue w 2 d
    else die_perm w (msg ++ too_long_notice) d

-- `handleSMTPError`
unfoldable pub handle_smtp_error : World → ℕ → Bytes → Delivery → Delivery
unfolding die_perm die_temp
handle_smtp_error w code msg d = if ltb 499 code then die_perm w msg d else die_temp w msg d

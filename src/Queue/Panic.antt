-- ===== src/Queue/Panic.antt =====
-- Only a header with no colon behind `message-id` makes `QueueAddMessage` panic.
use mathlib.Core.Option.{none}
use tmail.Message.{Envelope, raw_get_message_id}
use tmail.Prelude.{List, Bytes, some, arith, Bool-cases, inl, [], inr, Option, refl, ◌≢◌}
use tmail.Queue.{
  Queue, QMessage, Backend, create_all, store_put, publish_rows, add_rows, store_message,
  add_message, panic,
}
use tmail.Queue.Add.{mail_of}

publish_rows-ne-panic :
    (be : Backend) (uuid : Bytes) (x : Queue × Option (List QMessage))
    → (publish_rows be uuid x).1 ≢ panic
unfolding publish_rows
publish_rows-ne-panic be uuid (s, none) h = cc
publish_rows-ne-panic be uuid (s, some rows) h = ground arith

add_rows-ne-panic :
    (be : Backend) (uuid : Bytes) (env : Envelope) (auth : Bytes) (mid : Option Bytes) (s : Queue)
    → mid ≢ none
    → (add_rows be uuid env auth mid s).1 ≢ panic
unfolding add_rows
add_rows-ne-panic be uuid env auth none s n h = n refl
add_rows-ne-panic be uuid env auth (some mid) s n h =
    publish_rows-ne-panic be uuid (create_all be (mail_of be uuid env auth mid) 0 env.rcpt_to [] s)
      h

store_message-ne-panic :
    (be : Backend) (raw : Bytes) (env : Envelope) (auth : Bytes) (new : Option Bytes) (s : Queue)
    → raw_get_message_id raw ≢ none
    → (store_message be raw env auth new s).1 ≢ panic
unfolding store_message
store_message-ne-panic be raw env auth none s n h = cc
store_message-ne-panic be raw env auth (some uuid) s n h = elim (Bool-cases be.put_ok) [
  | inl put ↦
      add_rows-ne-panic be uuid env auth (raw_get_message_id raw)
        (record s { store = store_put uuid raw s.store }) n (rw put at h)
  | inr failed ↦ cc (rw failed at h)
]

pub add_message-ne-panic :
    (be : Backend) (raw : Bytes) (env : Envelope) (auth : Bytes) (s : Queue)
    → raw_get_message_id raw ≢ none
    → (add_message be raw env auth s).1 ≢ panic
unfolding add_message
add_message-ne-panic be raw env auth s n h = elim (Bool-cases be.store_ready) [
  | inl ready ↦ store_message-ne-panic be raw env auth be.new_uuid s n (rw ready at h)
  | inr failed ↦ cc (rw failed at h)
]

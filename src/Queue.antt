-- ===== src/Queue.antt =====
-- core/mailqueue.go: the table of queued messages, the store of raw messages, and the topic
-- `todeliver` of the message bus.
-- The table, the store and the topic are the fields of `Queue`; whether a call of the database,
-- of the store or of the bus fails is said by the parameters `Backend` and `DeleteFaults`.
pub mod Add
pub mod Delete
pub mod HalfDone
pub mod Panic
pub mod Stored
use tmail.Prelude.{
  ℕ, List, Bytes, Bool, ◌++◌, Option, ◌∷◌, if◌then◌else◌, true, length, none, eq_bytes, ◌==◌, [],
  some, ◌+◌, false, ltb, ◌&&◌,
}
use tmail.Message.{Envelope, get_host_from_address, raw_get_message_id}

pub record QMessage : Type 0 where
  pub id : ℕ
  pub uuid : Bytes
  pub mail_from : Bytes
  pub auth_user : Bytes
  pub rcpt_to : Bytes
  pub message_id : Bytes
  pub host : Bytes
  pub last_update : ℕ
  pub added_at : ℕ
  pub next_delivery_scheduled_at : ℕ
  pub status : ℕ  -- uint32: 0 in delivery, 1 to discard, 2 scheduled, 3 to bounce
  pub delivery_failed_count : ℕ

pub record Queue : Type 0 where
  pub table : List QMessage
  pub next_id : ℕ
  pub store : List (Bytes × Bytes)
  pub topic : List QMessage

-- What a call of Go returns: a value, an error, or a panic.
pub data Result {ℓ} (A : Type ℓ) : Type ℓ where
  ok : A → Result A
  err : Result A
  panic : Result A

-- The store, a map from keys to raw messages.
unfoldable pub store_get : Bytes → List (Bytes × Bytes) → Option Bytes
store_get k [] = none
store_get k ((j, v) ∷ m) = if eq_bytes j k then some v else store_get k m

unfoldable pub store_put : Bytes → Bytes → List (Bytes × Bytes) → List (Bytes × Bytes)
store_put k v [] = (k, v) ∷ []
store_put k v ((j, w) ∷ m) = if eq_bytes j k then (k, v) ∷ m else (j, w) ∷ store_put k v m

unfoldable pub store_del : Bytes → List (Bytes × Bytes) → List (Bytes × Bytes)
store_del k [] = []
store_del k ((j, w) ∷ m) = let rest = store_del k m in if eq_bytes j k then rest else (j, w) ∷ rest

-- How the calls of `QueueAddMessage` turn out; `created i`, `marshalled i` and `published i` are
-- about the recipient at index `i`. The errors of the calls that undo a failure are not looked at;
-- `raw_removed` and `row_removed` say whether these calls take effect.
pub record Backend : Type 0 where
  pub store_ready : Bool
  pub new_uuid : Option Bytes
  pub put_ok : Bool
  pub created : ℕ → Bool
  pub marshalled : ℕ → Bool
  pub published : ℕ → Bool
  pub raw_removed : Bool
  pub row_removed : Bool
  pub now : ℕ

unfoldable pub remove_row : ℕ → List QMessage → List QMessage
remove_row id [] = []
remove_row id (q ∷ qs) = let rest = remove_row id qs in if q.id == id then rest else q ∷ rest

abbrev pub queue_del : Bytes → Queue → Queue
queue_del uuid s = record s { store = store_del uuid s.store }

-- `qStore.Del` on the way out, its error ignored
abbrev pub undo_raw : Backend → Bytes → Queue → Queue
undo_raw be uuid s = if be.raw_removed then queue_del uuid s else s

-- What all the rows of one call share.
pub record Mail : Type 0 where
  pub uuid : Bytes
  pub auth_user : Bytes
  pub mail_from : Bytes
  pub message_id : Bytes
  pub now : ℕ

unfoldable pub new_row : Mail → Bytes → ℕ → QMessage
new_row m rcpt id = record {
  id = id;
  uuid = m.uuid;
  mail_from = m.mail_from;
  auth_user = m.auth_user;
  rcpt_to = rcpt;
  message_id = m.message_id;
  host = get_host_from_address rcpt;
  last_update = m.now;
  added_at = m.now;
  next_delivery_scheduled_at = m.now;
  status = 2;
  delivery_failed_count = 0;
}

abbrev pub add_row : QMessage → Queue → Queue
add_row q s = record s { table = s.table ++ q ∷ []; next_id = s.next_id + 1 }

-- The first loop; `cloop` counts the rows made. It gives the rows made, or `none` on an error.
unfoldable pub create_all :
    Backend → Mail → ℕ → List Bytes → List QMessage → Queue → Queue × Option (List QMessage)
unfolding new_row
create_all be m cloop [] done s = (s, some done)
create_all be m cloop (rcpt ∷ rcpts) done s =
    let q = new_row m rcpt s.next_id in
    let rest = create_all be m (cloop + 1) rcpts (done ++ q ∷ []) (add_row q s) in
    if be.created cloop then rest else (if cloop == 0 then undo_raw be m.uuid s else s, none)

-- What an error in the second loop undoes.
unfoldable pub withdraw : Backend → ℕ → QMessage → Queue → Queue
withdraw be cloop q s =
    let s' = if cloop == 1 then undo_raw be q.uuid s else s in
    if be.row_removed then record s' { table = remove_row q.id s'.table } else s'

-- The second loop; `i` is the index of the message.
unfoldable pub publish_all : Backend → ℕ → ℕ → List QMessage → Queue → Queue × Bool
unfolding withdraw
publish_all be cloop i [] s = (s, true)
publish_all be cloop i (q ∷ qs) s =
    let rest = publish_all be cloop (i + 1) qs (record s { topic = s.topic ++ q ∷ [] }) in
    if be.marshalled i && be.published i then rest else (withdraw be cloop q s, false)

unfoldable pub publish_rows :
    Backend → Bytes → Queue × Option (List QMessage) → Queue × Result Bytes
unfolding publish_all
publish_rows be uuid (s, none) = (s, err)
publish_rows be uuid (s, some rows) =
    let (s', done) = publish_all be (length rows) 0 rows s in (s', if done then ok uuid else err)

-- With the message in the store, `none` is the panic of `RawGetMessageId`.
unfoldable pub add_rows :
    Backend → Bytes → Envelope → Bytes → Option Bytes → Queue → Queue × Result Bytes
unfolding create_all publish_rows
add_rows be uuid env auth none s = (s, panic)
add_rows be uuid env auth (some message_id) s =
    let m : Mail = record {
      uuid = uuid;
      auth_user = auth;
      mail_from = env.mail_from;
      message_id = message_id;
      now = be.now;
    } in
    publish_rows be uuid (create_all be m 0 env.rcpt_to [] s)

unfoldable pub store_message :
    Backend → Bytes → Envelope → Bytes → Option Bytes → Queue → Queue × Result Bytes
unfolding add_rows
store_message be raw env auth none s = (s, err)
store_message be raw env auth (some uuid) s =
    if be.put_ok
    then add_rows be uuid env auth (raw_get_message_id raw)
        (record s { store = store_put uuid raw s.store })
    else (s, err)

-- `QueueAddMessage`
unfoldable pub add_message : Backend → Bytes → Envelope → Bytes → Queue → Queue × Result Bytes
unfolding store_message
add_message be raw env auth s =
    if be.store_ready then store_message be raw env auth be.new_uuid s else (s, err)

-- How the calls of `Delete` turn out.
pub data Removal : Type 0 where
  removed no_such_file not_removed : Removal

pub record DeleteFaults : Type 0 where
  pub row_deleted : Bool
  pub counted : Bool
  pub removal : Removal

unfoldable pub count_uuid : Bytes → List QMessage → ℕ
count_uuid u [] = 0
count_uuid u (q ∷ qs) = (if eq_bytes q.uuid u then 1 else 0) + count_uuid u qs

unfoldable pub remove_raw : Removal → Bytes → Queue → Queue × Bool
remove_raw removed uuid s = (queue_del uuid s, true)
remove_raw no_such_file uuid s = (s, true)
remove_raw not_removed uuid s = (s, false)

-- `QMessage.Delete`; the test is `err == nil`
unfoldable pub delete : DeleteFaults → QMessage → Queue → Queue × Bool
unfolding remove_row count_uuid remove_raw
delete f q s =
    let s' = record s { table = remove_row q.id s.table } in
    if f.row_deleted
    then if f.counted
      then (if count_uuid q.uuid s'.table == 0 then remove_raw f.removal q.uuid s' else (s', true))
      else (s', false)
    else (s, false)

-- `DB.First(q, q.Id)`
unfoldable pub find_row : ℕ → List QMessage → Option QMessage
find_row id [] = none
find_row id (q ∷ qs) = if q.id == id then some q else find_row id qs

-- `DB.Save(q)`: the row is replaced, or added where there is none
unfoldable pub save_row : QMessage → List QMessage → List QMessage
save_row q [] = q ∷ []
save_row q (r ∷ rs) = if r.id == q.id then q ∷ rs else r ∷ save_row q rs

-- `SaveInDb`, with the message as it is afterwards; a failed save leaves the table alone
unfoldable pub save_in_db : Bool → ℕ → QMessage → Queue → QMessage × Queue
unfolding save_row
save_in_db saved now q s =
    let q' = record q { last_update = now } in
    (q', if saved then record s { table = save_row q' s.table } else s)

unfoldable pub set_status : Bool → ℕ → ℕ → QMessage → Queue → QMessage × Queue × Bool
unfolding save_in_db
set_status saved now status q s =
    let (q', s') = save_in_db saved now (record q { status = status }) s in
    if q.status == 0 then (q, s, false) else (q', s', saved)

-- `QMessage.Discard` and `QMessage.Bounce`; the test is `err == nil`
unfoldable pub mark_discard : Bool → ℕ → QMessage → Queue → QMessage × Queue × Bool
unfolding set_status
mark_discard saved now q s = set_status saved now 1 q s

unfoldable pub mark_bounce : Bool → ℕ → QMessage → Queue → QMessage × Queue × Bool
unfolding set_status
mark_bounce saved now q s = set_status saved now 3 q s

-- `QueueGetExpiredMessages`: scheduled more than a day ago, in seconds
unfoldable pub expired : ℕ → List QMessage → List QMessage
expired now [] = []
expired now (q ∷ qs) =
    let rest = expired now qs in
    if ltb (q.next_delivery_scheduled_at + 86400) now then q ∷ rest else rest

-- `QueueCount`
unfoldable pub queue_count : Queue → ℕ
queue_count s = length s.table

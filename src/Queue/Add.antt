-- ===== src/Queue/Add.antt =====
-- What `QueueAddMessage` does to the table, the store and the topic.
use mathlib.Core.Option.{none}
use tmail.Message.{Envelope, raw_get_message_id, get_host_from_address}
use tmail.Prelude.{
  ℕ, List, Bytes, ◌≡◌, ◌+◌, ◌++◌, some, true, arith, Bool-cases, eq_bytes_refl, inl, ◌&&◌, [], ◌∙◌,
  inr, Option, length, refl,
}
use mathlib.Core.List.{append-nil, append_assoc, ◌∷◌}
use tmail.Queue.{
  Queue, QMessage, Backend, Mail, new_row, create_all, publish_all, add_row, store_get, store_put,
  publish_rows, add_rows, ok, store_message, add_message,
}

-- The rows that a mail is to have, one for each recipient, numbered from `id`: due at once, of
-- status 2 (scheduled), and with no failed attempt.
unfoldable pub numbered : Mail → ℕ → List Bytes → List QMessage
numbered m id [] = []
numbered m id (rcpt ∷ rcpts) =
    record {
      id = id;
      uuid = m.uuid;
      mail_from = m.mail_from;
      auth_user = m.auth_user;
      rcpt_to = rcpt;
      message_id = m.message_id;
      host = get_host_from_address rcpt;
      last_update = m.now;
      added_at = m.now;
      next_delivery_scheduled_at = m.now;
      status = 2;
      delivery_failed_count = 0;
    }
    ∷ numbered m (id + 1) rcpts

pub record Added (s s' : Queue) (rows : List QMessage) : Type 0 where
  pub table_grows : s'.table ≡ s.table ++ rows
  pub store_same : s'.store ≡ s.store
  pub topic_same : s'.topic ≡ s.topic

create_all-some :
    (be : Backend) (m : Mail) (rcpts : List Bytes) (k : ℕ) (done rows : List QMessage)
    (s s' : Queue)
    → create_all be m k rcpts done s ≡ (s', some rows)
    → (rows ≡ done ++ numbered m s.next_id rcpts) × Added s s' (numbered m s.next_id rcpts)
unfolding create_all numbered new_row
create_all-some be m [] k done rows s s' h =
    (ground (arith, append-nil done), ground (arith, append-nil s.table))
create_all-some be m (rcpt ∷ rcpts) k done rows s s' h =
    let q = new_row m rcpt s.next_id in
    elim (Bool-cases (be.created k)) [
      | inl made ↦
          let (all, more) =
            create_all-some be m rcpts (k + 1) (done ++ q ∷ []) rows (add_row q s) s'
              (rw made at h) in
          (
            rw (all, append_assoc),
            record {
              table_grows = more.table_grows ∙ append_assoc s.table (q ∷ []) _;
              store_same = more.store_same;
              topic_same = more.topic_same;
            },
          )
      | inr failed ↦ cc (rw failed at h)
    ]

publish_all-true :
    (be : Backend) (cloop : ℕ) (qs : List QMessage) (i : ℕ) (s s' : Queue)
    → publish_all be cloop i qs s ≡ (s', true)
    → (s'.topic ≡ s.topic ++ qs) × (s'.table ≡ s.table) × (s'.store ≡ s.store)
unfolding publish_all
publish_all-true be cloop [] i s s' h = ground (arith, append-nil s.topic)
publish_all-true be cloop (q ∷ qs) i s s' h =
    elim (Bool-cases (be.marshalled i && be.published i)) [
      | inl sent ↦
          let next = record s { topic = s.topic ++ q ∷ [] } in
          let (topic, table, store) = publish_all-true be cloop qs (i + 1) next s' (rw sent at h) in
          (topic ∙ append_assoc s.topic (q ∷ []) qs, table, store)
      | inr failed ↦ cc (rw failed at h)
    ]

pub store_get-put :
    (k v : Bytes) (m : List (Bytes × Bytes)) → store_get k (store_put k v m) ≡ some v
unfolding store_get store_put
store_get-put k v [] = ground (arith, eq_bytes_refl k)
store_get-put k v ((j, w) ∷ m) = ground (arith, eq_bytes_refl k, store_get-put k v m)

abbrev pub mail_of : Backend → Bytes → Envelope → Bytes → Bytes → Mail
mail_of be uuid env auth mid = record {
  uuid = uuid;
  auth_user = auth;
  mail_from = env.mail_from;
  message_id = mid;
  now = be.now;
}

publish_rows-ok :
    (be : Backend) (uuid u : Bytes) (s s' : Queue) (r : Option (List QMessage))
    → publish_rows be uuid (s, r) ≡ (s', ok u)
    → (rows : List QMessage) × (r ≡ some rows)
      × (u ≡ uuid)
      × (s'.topic ≡ s.topic ++ rows)
      × (s'.table ≡ s.table)
      × (s'.store ≡ s.store)
unfolding publish_rows
publish_rows-ok be uuid u s s' none h = cc
publish_rows-ok be uuid u s s' (some rows) h =
    let (topic, table, store) = publish_all-true be (length rows) rows 0 s s' (ground arith) in
    (rows, refl, ground arith, topic, table, store)

pub record Queued (be : Backend) (raw : Bytes) (env : Envelope) (auth : Bytes) (s s' : Queue)
    (uuid : Bytes) : Type 0 where
  pub message_id : Bytes
  pub found : raw_get_message_id raw ≡ some message_id
  pub uuid_new : be.new_uuid ≡ some uuid
  pub raw_stored : store_get uuid s'.store ≡ some raw
  pub table_grows :
      s'.table ≡ s.table ++ numbered (mail_of be uuid env auth message_id) s.next_id env.rcpt_to
  pub topic_grows :
      s'.topic ≡ s.topic ++ numbered (mail_of be uuid env auth message_id) s.next_id env.rcpt_to

add_rows-ok :
    (be : Backend) (raw uuid u : Bytes) (env : Envelope) (auth : Bytes) (mid : Option Bytes)
    (s s' : Queue)
    → raw_get_message_id raw ≡ mid
    → be.new_uuid ≡ some uuid
    → add_rows be uuid env auth mid (record s { store = store_put uuid raw s.store }) ≡ (s', ok u)
    → Queued be raw env auth s s' u
unfolding add_rows
add_rows-ok be raw uuid u env auth none s s' e n h = cc
add_rows-ok be raw uuid u env auth (some mid) s s' e n h =
    let m = mail_of be uuid env auth mid in
    let start = record s { store = store_put uuid raw s.store } in
    let made = create_all be m 0 env.rcpt_to [] start in
    let (rows, some_rows, same, topic, table, store) =
      publish_rows-ok be uuid u made.0 s' made.1 h in
    let (all, added) =
      create_all-some be m env.rcpt_to 0 [] rows start made.0 (rw (← some_rows) refl) in
    record {
      message_id = mid;
      found = e;
      uuid_new = rw same n;
      raw_stored = rw (store, added.store_same, same) (store_get-put uuid raw s.store);
      table_grows = rw (same, table) added.table_grows;
      topic_grows = rw (same, topic, added.topic_same, all);
    }

store_message-ok :
    (be : Backend) (raw u : Bytes) (env : Envelope) (auth : Bytes) (new : Option Bytes)
    (s s' : Queue)
    → be.new_uuid ≡ new
    → store_message be raw env auth new s ≡ (s', ok u)
    → Queued be raw env auth s s' u
unfolding store_message
store_message-ok be raw u env auth none s s' n h = cc
store_message-ok be raw u env auth (some uuid) s s' n h = elim (Bool-cases be.put_ok) [
  | inl put ↦ add_rows-ok be raw uuid u env auth (raw_get_message_id raw) s s' refl n (rw put at h)
  | inr failed ↦ cc (rw failed at h)
]

-- If `QueueAddMessage` gives an id, the raw message is in the store under that new id, and the
-- table and the topic have grown by the same rows, one for each recipient of the envelope in its
-- order and numbered from the next id of the table, each of status 2 (scheduled), due at once, with
-- no failed attempt, with the host of its recipient, and with the id, the sender, the user and the
-- message-id of the message.
pub add_message_ok :
    (be : Backend) (raw u : Bytes) (env : Envelope) (auth : Bytes) (s s' : Queue)
    → add_message be raw env auth s ≡ (s', ok u)
    → Queued be raw env auth s s' u
unfolding add_message
add_message_ok be raw u env auth s s' h = elim (Bool-cases be.store_ready) [
  | inl ready ↦ store_message-ok be raw u env auth be.new_uuid s s' refl (rw ready at h)
  | inr failed ↦ cc (rw failed at h)
]

-- ===== src/Queue/HalfDone.antt =====
-- What `QueueAddMessage` leaves behind where a call of the database fails.
use mathlib.Core.Option.{none}
use tmail.Message.{Envelope, raw_get_message_id}
use tmail.Prelude.{
  ℕ, List, Bytes, ◌≡◌, ◌+◌, ◌++◌, some, true, arith, [], ◌∙◌, Option, length, refl, ◌<◌, false,
  ◌==◌, sym,
}
use mathlib.Core.List.{append-nil, append_assoc, ◌∷◌}
use tmail.Queue.{
  Queue, QMessage, Backend, Mail, new_row, create_all, add_row, store_get, store_put, publish_rows,
  add_rows, store_message, add_message, err,
}
use tmail.Queue.Add.{numbered, Added, mail_of, store_get-put}

publish_rows-none :
    (be : Backend) (uuid : Bytes) (x : Queue × Option (List QMessage))
    → x.1 ≡ none
    → publish_rows be uuid x ≡ (x.0, err)
unfolding publish_rows
publish_rows-none be uuid (s, none) h = refl
publish_rows-none be uuid (s, some rows) h = cc

-- The rows that were made before a call of the database failed.
create_all_stops :
    (be : Backend) (m : Mail) (first : List Bytes) (rcpt : Bytes) (rest : List Bytes) (n k : ℕ)
    (done : List QMessage) (s : Queue)
    → n ≡ k + length first
    → ((i : ℕ) → i < n → be.created i ≡ true)
    → be.created n ≡ false
    → 0 < n
    → ((create_all be m k (first ++ rcpt ∷ rest) done s).1 ≡ none)
      × Added s (create_all be m k (first ++ rcpt ∷ rest) done s).0 (numbered m s.next_id first)
unfolding create_all numbered new_row
create_all_stops be m [] rcpt rest n k done s e up down pos =
    let here : n ≡ k = omega arith in
    let failed : be.created k ≡ false = rw (← here) down in
    let later : (k == 0) ≡ false = ground arith in
    (
      rw (failed) refl,
      rw (failed, later)
          (record { table_grows = sym (append-nil s.table); store_same = refl; topic_same = refl }),
    )
create_all_stops be m (r ∷ first) rcpt rest n k done s e up down pos =
    let q = new_row m r s.next_id in
    let made : be.created k ≡ true = up k (omega arith) in
    let (stops, more) =
      create_all_stops be m first rcpt rest n (k + 1) (done ++ q ∷ []) (add_row q s) (omega arith)
        up down pos in
    (
      rw made stops,
      rw made (record {
        table_grows = more.table_grows ∙ append_assoc s.table (q ∷ []) _;
        store_same = more.store_same;
        topic_same = more.topic_same;
      }),
    )

-- If a call of the database fails at a recipient that is not the first, `QueueAddMessage` gives an
-- error, though the rows of the recipients before it stay in the table with the raw message in
-- the store, and none of them is published.
pub add_message_half_done :
    (be : Backend) (raw uuid mid : Bytes) (sender : Bytes) (first : List Bytes) (rcpt : Bytes)
    (rest : List Bytes) (auth : Bytes) (s : Queue)
    → be.store_ready ≡ true
    → be.new_uuid ≡ some uuid
    → be.put_ok ≡ true
    → raw_get_message_id raw ≡ some mid
    → ((i : ℕ) → i < length first → be.created i ≡ true)
    → be.created (length first) ≡ false
    → 0 < length first
    → let env : Envelope = record { mail_from = sender; rcpt_to = first ++ rcpt ∷ rest } in
      let (s', r) = add_message be raw env auth s in
      (r ≡ err)
      × (s'.table ≡ s.table ++ numbered (mail_of be uuid env auth mid) s.next_id first)
      × (store_get uuid s'.store ≡ some raw)
      × (s'.topic ≡ s.topic)
unfolding add_message store_message add_rows
add_message_half_done be raw uuid mid sender first rcpt rest auth s ready new put found up down
      pos =
    let env : Envelope = record { mail_from = sender; rcpt_to = first ++ rcpt ∷ rest } in
    let m = mail_of be uuid env auth mid in
    let start : Queue = record s { store = store_put uuid raw s.store } in
    let (stops, added) =
      create_all_stops be m first rcpt rest (length first) 0 [] start (omega arith) up down pos in
    let same =
      publish_rows-none be uuid (create_all be m 0 (first ++ rcpt ∷ rest) [] start) stops in
    rw (ready, new, put, found, same)
      (
        refl,
        added.table_grows,
        rw added.store_same (store_get-put uuid raw s.store),
        added.topic_same,
      )

-- ===== src/Queue/Stored.antt =====
-- Every row of the table has its raw message in the store.
use tmail.Prelude.{
  Bytes, List, ℕ, Bool, eq_bytes, All, ◌∷◌, ◌≡◌, false, true, arith, ◌||◌, eq_bytes_iff, [], refl,
}
use tmail.Queue.{Queue, QMessage, store_del, count_uuid, remove_row}

unfoldable pub has_raw : Bytes → List (Bytes × Bytes) → Bool
has_raw k [] = false
has_raw k ((j, v) ∷ m) = eq_bytes j k || has_raw k m

pub has_raw-del :
    (k j : Bytes) (m : List (Bytes × Bytes))
    → eq_bytes j k ≡ false
    → has_raw j (store_del k m) ≡ has_raw j m
unfolding has_raw store_del
has_raw-del k j [] h = refl
has_raw-del k j ((i, v) ∷ m) h =
    ground (arith, has_raw-del k j m, eq_bytes_iff i k, eq_bytes_iff i j, eq_bytes_iff j k)

abbrev pub AllStored : List QMessage → List (Bytes × Bytes) → Type 0
AllStored table store = All (λ q. has_raw q.uuid store ≡ true) table

abbrev pub IsStored : Queue → Type 0
IsStored s = AllStored s.table s.store

pub AllStored-remove_row :
    (id : ℕ) (table : List QMessage) (store : List (Bytes × Bytes))
    → AllStored table store
    → AllStored (remove_row id table) store
unfolding remove_row
AllStored-remove_row id [] store h = tt
AllStored-remove_row id (q ∷ qs) store h = ground (arith, AllStored-remove_row id qs store h.1)

-- A raw message that no row names may go.
pub AllStored-del :
    (u : Bytes) (table : List QMessage) (store : List (Bytes × Bytes))
    → AllStored table store
    → count_uuid u table ≡ 0
    → AllStored table (store_del u store)
unfolding count_uuid
AllStored-del u [] store h none_left = tt
AllStored-del u (q ∷ qs) store h none_left =
    ground (arith, AllStored-del u qs store h.1, has_raw-del u q.uuid store, h.0)

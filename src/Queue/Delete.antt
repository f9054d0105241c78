-- ===== src/Queue/Delete.antt =====
-- `QMessage.Delete`, `Discard` and `Bounce`.
use tmail.Prelude.{Bytes, arith, ◌≡◌}
use tmail.Queue.{
  Queue, QMessage, DeleteFaults, Removal, remove_raw, delete, count_uuid, remove_row, removed,
}
use tmail.Queue.Stored.{IsStored, AllStored-remove_row, AllStored-del}

remove_raw-IsStored :
    (r : Removal) (u : Bytes) (s : Queue)
    → IsStored s
    → count_uuid u s.table ≡ 0
    → IsStored (remove_raw r u s).0
unfolding remove_raw
remove_raw-IsStored removed u s h z = AllStored-del u s.table s.store h z
remove_raw-IsStored _ u s h z = h

-- Deleting a message, whatever call of it fails, never takes the raw message of a row that stays.
pub delete-IsStored :
    (f : DeleteFaults) (q : QMessage) (s : Queue) → IsStored s → IsStored (delete f q s).0
unfolding delete
delete-IsStored f q s h =
    let table = remove_row q.id s.table in
    let s' = record s { table = table } in
    let kept = AllStored-remove_row q.id s.table s.store h in
    ground (arith, kept, remove_raw-IsStored f.removal q.uuid s' kept)

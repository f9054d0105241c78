-- ===== src/Deliverd/Process.antt =====
-- `processMsg` of core/deliverd_delivery.go, and `isLocalDelivery` of core/local.go.
use tmail.Prelude.{
  ◌+◌, ◌∷◌, ◌==◌, if◌then◌else◌, [], ℕ, suc, zero, true, false, Bool, none, some, Option, not, ltb,
  codes, Bytes, length,
}
use tmail.Deliverd.{
  Delivery, World, requeue_after, reply_bus, save, requeue, discard, bounce, die_temp,
}
use tmail.Deliverd.Remote.{RemoteWorld, deliver_remote}
use tmail.Deliverd.Local.{LocalWorld, deliver_local}
use tmail.Directory.{RcptHost, Query, row, record_not_found, query_error}
use tmail.Queue.{QMessage}
use tmail.Text.{split, part}

-- `UpdateFromDb` at one try.
pub data Fetched : Type 0 where
  updated : QMessage → Fetched
  missing fetch_error : Fetched

-- What the store gives: the reader or its bytes may fail.
pub data StoreRead : Type 0 where
  no_store not_in_store not_read : StoreRead
  raw_mail : Bytes → StoreRead

pub record Job : Type 0 where
  pub unmarshalled : Option QMessage
  pub fetch : ℕ → Fetched
  pub store_read : StoreRead
  pub rcpthost_get : Bytes → Query RcptHost
  pub local : LocalWorld
  pub remote : RemoteWorld

unfoldable pub judge_host : Query RcptHost → Option Bool
judge_host record_not_found = some false
judge_host query_error = none
judge_host (row h) = some h.is_local

-- `none` is an error
unfoldable pub is_local_delivery : (Bytes → Query RcptHost) → Bytes → Option Bool
unfolding judge_host
is_local_delivery rcpthost_get rcpt =
    let t = split rcpt (64 ∷ []) in
    if not (length t == 2) then none else judge_host (rcpthost_get (part 1 t))

unfoldable pub dispatch : World → Job → Option Bool → Delivery → Delivery
dispatch w j none d = die_temp w (codes "unable to check if it's local delivery") d
dispatch w j (some true) d = deliver_local w j.local (record d { is_local = true })
dispatch w j (some false) d = deliver_remote w j.remote (record d { is_local = false })

unfoldable pub with_raw : World → Job → Bool → StoreRead → Delivery → Delivery
unfolding dispatch
with_raw w j flag_bounce no_store d = requeue w 2 d
with_raw w j flag_bounce not_in_store d =
    die_temp w (codes "unable to retrieve raw mail from store") d
with_raw w j flag_bounce not_read d = die_temp w (codes "unable to read raw mail from dataReader") d
with_raw w j flag_bounce (raw_mail raw) d =
    let d' = record d { raw_data = some raw } in
    if flag_bounce
    then bounce w (codes "bounced by admin") d'
    else dispatch w j (is_local_delivery j.rcpthost_get d'.qmsg.rcpt_to) d'

-- by the status of the message, as the table has it
unfoldable pub by_status : World → Job → Delivery → Delivery
unfolding with_raw
by_status w j d =
    let q = d.qmsg in
    let in_delivery = save w (record q { status = 0 }) d in
    if q.status == 0
    then if ltb (q.last_update + 3600) w.now then requeue w 2 d else reply_bus (requeue_after 600) d
    else if q.status == 1
    then discard w in_delivery
    else with_raw w j (q.status == 3) j.store_read in_delivery

-- the loop of at most two tries
unfoldable pub fetch_message : World → Job → ℕ → ℕ → Delivery → Delivery
unfolding by_status
fetch_message w j zero n d = discard w d
fetch_message w j (suc tries) n d = elim (j.fetch n) [
  | updated q ↦ by_status w j (record d { qmsg = q })
  | missing ↦ fetch_message w j tries (n + 1) d
  | fetch_error ↦ requeue w 2 d
]

unfoldable pub with_message : World → Job → Option QMessage → Delivery → Delivery
unfolding fetch_message
with_message w j none d = d
with_message w j (some q) d = fetch_message w j 2 0 (record d { qmsg = q })

-- `processMsg`
unfoldable pub process_msg : World → Job → Delivery → Delivery
unfolding with_message
process_msg w j d = with_message w j j.unmarshalled d

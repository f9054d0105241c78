-- ===== src/Accounts/Hosts.antt =====
-- core/rcpthost.go, core/mailbox.go and core/smtpd_relay_ip.go.
use tmail.Text.Utils.{is_string_in_slice}
use tmail.Prelude.{
  Bytes, ◌&&◌, ◌||◌, ◌∷◌, ◌++◌, ◌==◌, if◌then◌else◌, [], ℕ, false, Bool, none, some, Option, List,
  not, ltb, length, eq_bytes,
}
use tmail.Text.{to_lower, split, part}
use tmail.Directory.{RcptHost}
use tmail.Accounts.{
  value, error, refused, panicked, Action, Done, Mailbox, ◌>>=◌, pure, raise, guard, query, exec,
  insert, exists_row, find_host, is_some, without_key, ◌>>◌,
}

-- `RcpthostGet`
unfoldable pub rcpthost_get : Bytes → Action RcptHost
rcpthost_get hostname = query (λ t. find_host hostname t.hosts)

-- `IsInRcptHost`
unfoldable pub is_in_rcpt_host : Bytes → Action Bool
is_in_rcpt_host hostname = exists_row (rcpthost_get hostname)

-- `DB.Save` of a new host
unfoldable pub save_host : RcptHost → Action Done
save_host h =
    insert (λ t. is_some (find_host h.hostname t.hosts))
      (λ t. record t { hosts = t.hosts ++ h ∷ [] })

unfoldable pub count_hosts : Bytes → Action ℕ
count_hosts hostname = query (λ t. some (if is_some (find_host hostname t.hosts) then 1 else 0))

-- `RcpthostAdd`
unfoldable pub rcpthost_add : Bytes → Bool → Bool → Action Done
rcpthost_add hostname is_local is_alias = do
  guard (not (ltb 256 (length hostname))) "hostname must have less than 256 chars"
  known ← count_hosts (to_lower hostname)
  guard (known == 0) "hostname already in rcpthosts"
  save_host (record { hostname = to_lower hostname; is_local = is_local; is_alias = is_alias })

unfoldable pub remove_host : Bytes → List RcptHost → List RcptHost
remove_host = without_key (λ x. x.hostname)

-- `RcpthostDel`
unfoldable pub rcpthost_del : Bytes → Action Done
rcpthost_del hostname = exec (λ t. record t { hosts = remove_host (to_lower hostname) t.hosts })

unfoldable pub has_mailbox : Bytes → Bytes → List Mailbox → Bool
has_mailbox l d [] = false
has_mailbox l d (m ∷ ms) = eq_bytes m.local_part l && eq_bytes m.domain_part d || has_mailbox l d ms

unfoldable pub mailbox_parts : List Bytes → Action Bool
mailbox_parts (l ∷ (d ∷ [])) = query (λ t. some (has_mailbox l d t.mailboxes))
mailbox_parts _ = raise (refused "Bad mailbox format")

-- `MailboxExists`
unfoldable pub mailbox_exists : Bytes → Action Bool
mailbox_exists mailbox = mailbox_parts (split mailbox (64 ∷ []))

-- the address that `mail.ParseAddress` gives; `none` is an error
unfoldable pub parsed : (Bytes → Option Bytes) → Bytes → Action (List Bytes)
parsed parse mailbox db = (
  elim (parse mailbox) [
    | none ↦ error (refused "Bad mailbox format")
    | some address ↦ value (split address (64 ∷ []))
  ],
  db,
)

-- `MailboxAdd`
unfoldable pub mailbox_add : (Bytes → Option Bytes) → Bytes → Action Done
mailbox_add parse mailbox = do
  t ← parsed parse (to_lower mailbox)
  handled ← is_in_rcpt_host (part 1 t)
  guard handled "Domain doesn't exists in rcpthosts"
  known ← mailbox_exists (to_lower mailbox)
  guard (not known) "Mailbox already exists"
  exec (λ db. record db {
    mailboxes = db.mailboxes ++ record { local_part = part 0 t; domain_part = part 1 t } ∷ [];
  })

unfoldable pub remove_mailbox : Bytes → Bytes → List Mailbox → List Mailbox
remove_mailbox l d [] = []
remove_mailbox l d (m ∷ ms) =
    let rest = remove_mailbox l d ms in
    if eq_bytes m.local_part l && eq_bytes m.domain_part d then rest else m ∷ rest

-- `MailboxDel`
unfoldable pub mailbox_del : (Bytes → Option Bytes) → Bytes → Action Done
mailbox_del parse mailbox = do
  t ← parsed parse (to_lower mailbox)
  exec (λ db. record db { mailboxes = remove_mailbox (part 0 t) (part 1 t) db.mailboxes })

unfoldable pub remove_ip : Bytes → List Bytes → List Bytes
remove_ip ip [] = []
remove_ip ip (i ∷ is) = let rest = remove_ip ip is in if eq_bytes i ip then rest else i ∷ rest

unfoldable pub before_colon : Bytes → Action Bytes
before_colon [] = raise panicked
before_colon (c ∷ s) =
    let rest = before_colon s in if c == 58 then pure [] else (rest >>= λ r. pure (c ∷ r))

-- `IpCanRelay`, of the text of the address; without a colon the slice panics
unfoldable pub ip_can_relay : Bytes → Action Bool
ip_can_relay addr = do ip ← before_colon addr; query (λ t. some (is_string_in_slice ip t.relay_ips))

-- `RelayIpAdd`
unfoldable pub relay_ip_add : (Bytes → Bool) → Bytes → Action Done
relay_ip_add parse_ip ip = do
  guard (parse_ip ip) "Invalid IP"
  insert (λ t. is_string_in_slice ip t.relay_ips)
      (λ t. record t { relay_ips = t.relay_ips ++ ip ∷ [] })

-- `RelayIpDel`
unfoldable pub relay_ip_del : (Bytes → Bool) → Bytes → Action Done
relay_ip_del parse_ip ip = do
  guard (parse_ip ip) "Invalid IP"
  exec (λ t. record t { relay_ips = remove_ip ip t.relay_ips })

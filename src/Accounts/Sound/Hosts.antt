-- ===== src/Accounts/Sound/Hosts.antt =====
-- The operations on hosts and on addresses that may relay keep the tables sound.
use tmail.Prelude.{
  Bytes, ◌≡◌, ◌∷◌, ◌++◌, [], ℕ, false, Bool, none, some, Option, All-append, refl, List, arith,
}
use tmail.Text.{to_lower, lower_byte}
use tmail.Directory.{RcptHost}
use tmail.Accounts.{Tables, find_host, is_some}
use tmail.Accounts.Hosts.{
  save_host, count_hosts, rcpthost_add, rcpthost_del, remove_host, relay_ip_add, relay_ip_del,
}
use tmail.Accounts.Rows.{Apart-snoc, first_with-none, without_key-All, without_key-Apart}
use tmail.Accounts.Triple.{
  Triple, Any, >>=-Triple, guard-then, query-Triple, exec-Triple, insert-Triple,
}
use tmail.Accounts.Sound.{IsSound}

lower_byte_idem : (c : ℕ) → lower_byte (lower_byte c) ≡ lower_byte c
unfolding lower_byte
lower_byte_idem c = ground arith

pub to_lower_idem : (s : Bytes) → to_lower (to_lower s) ≡ to_lower s
unfolding to_lower
to_lower_idem [] = refl
to_lower_idem (c ∷ s) = rw (lower_byte_idem c, to_lower_idem s)

pub is_none : {A : Type 0} (o : Option A) → is_some o ≡ false → o ≡ none
is_none none h = refl
is_none (some a) h = cc

pub with_host-IsSound :
    (t : Tables) (h : RcptHost)
    → to_lower h.hostname ≡ h.hostname
    → is_some (find_host h.hostname t.hosts) ≡ false
    → IsSound t
    → IsSound (record t { hosts = t.hosts ++ h ∷ [] })
unfolding find_host
with_host-IsSound t h lower new s = record {
  users = s.users;
  users_apart = s.users_apart;
  hosts = All-append _ t.hosts (h ∷ []) s.hosts (lower, tt);
  hosts_apart =
      Apart-snoc _ t.hosts h s.hosts_apart
        (first_with-none (λ x. x.hostname) h.hostname t.hosts (is_none _ new));
  aliases = s.aliases;
  aliases_apart = s.aliases_apart;
}

pub without_host-IsSound :
    (t : Tables) (k : Bytes) → IsSound t → IsSound (record t { hosts = remove_host k t.hosts })
unfolding remove_host
without_host-IsSound t k s = record {
  users = s.users;
  users_apart = s.users_apart;
  hosts = without_key-All (λ x. x.hostname) _ k t.hosts s.hosts;
  hosts_apart = without_key-Apart (λ x. x.hostname) _ k t.hosts s.hosts_apart;
  aliases = s.aliases;
  aliases_apart = s.aliases_apart;
}

pub save_host-Triple :
    {K : Tables → Type 0} (h : RcptHost)
    → to_lower h.hostname ≡ h.hostname
    → Triple IsSound K (save_host h) (Any IsSound)
unfolding save_host
save_host-Triple h lower =
    insert-Triple IsSound _ _ (λ t i p new. with_host-IsSound t h lower new i)

pub rcpthost_add-Triple :
    {K : Tables → Type 0} (hostname : Bytes) (is_local is_alias : Bool)
    → Triple IsSound K (rcpthost_add hostname is_local is_alias) (Any IsSound)
unfolding rcpthost_add count_hosts
rcpthost_add-Triple hostname is_local is_alias = guard-then IsSound _ _ (λ _.
    >>=-Triple IsSound (query-Triple IsSound _)
      λ known. guard-then IsSound _ _ (λ _. save_host-Triple _ (to_lower_idem hostname)))

pub rcpthost_del-Triple :
    {K : Tables → Type 0} (hostname : Bytes)
    → Triple IsSound K (rcpthost_del hostname) (Any IsSound)
unfolding rcpthost_del
rcpthost_del-Triple hostname =
    exec-Triple IsSound _ (λ t i p. without_host-IsSound t (to_lower hostname) i)

with_ips-IsSound :
    (t : Tables) (ips : List Bytes) → IsSound t → IsSound (record t { relay_ips = ips })
with_ips-IsSound t ips s = record {
  users = s.users;
  users_apart = s.users_apart;
  hosts = s.hosts;
  hosts_apart = s.hosts_apart;
  aliases = s.aliases;
  aliases_apart = s.aliases_apart;
}

pub relay_ip_add-Triple :
    {K : Tables → Type 0} (parse_ip : Bytes → Bool) (ip : Bytes)
    → Triple IsSound K (relay_ip_add parse_ip ip) (Any IsSound)
unfolding relay_ip_add
relay_ip_add-Triple parse_ip ip =
    guard-then IsSound _ _ (λ _. insert-Triple IsSound _ _ (λ t i p _. with_ips-IsSound t _ i))

pub relay_ip_del-Triple :
    {K : Tables → Type 0} (parse_ip : Bytes → Bool) (ip : Bytes)
    → Triple IsSound K (relay_ip_del parse_ip ip) (Any IsSound)
unfolding relay_ip_del
relay_ip_del-Triple parse_ip ip =
    guard-then IsSound _ _ (λ _. exec-Triple IsSound _ (λ t i p. with_ips-IsSound t _ i))

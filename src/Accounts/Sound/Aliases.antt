-- ===== src/Accounts/Sound/Aliases.antt =====
-- The operations of core/alias.go keep the tables sound.
pub mod Checks
use tmail.Accounts.Sound.Aliases.Checks.{
  check_alias-Triple, alias_failure-Triple, check_pipe-Triple, check_deliver_to-Triple,
}
use tmail.Prelude.{
  Bytes, ◌≡◌, ◌∷◌, ◌++◌, [], true, false, Bool, All-append, List, arith, if◌then◌else◌,
}
use tmail.Text.{trim_space}
use tmail.Directory.{Alias}
use tmail.Accounts.{
  Tables, Db, Returned, value, error, failed, Action, Done, find_alias, is_some, exec, exists_row,
  pure, transaction, next_fault,
}
use tmail.Accounts.Hosts.{remove_host}
use tmail.Accounts.Aliases.{
  alias_get, alias_exists, save_alias, alias_add, remove_alias, delete_domain, delete_rows,
  alias_del,
}
use tmail.Accounts.Rows.{Apart-snoc, first_with-none, without_key-All, without_key-Apart}
use tmail.Accounts.Triple.{
  Triple, Any, Ended, >>=-Triple, guard-then, query-Triple, optional-Triple, exec-Triple,
  insert-Triple, pure-Triple,
}
use tmail.Accounts.Sound.{IsSound, IsSoundAlias}
use tmail.Accounts.Sound.Hosts.{to_lower_idem, is_none, without_host-IsSound}

with_alias-IsSound :
    (t : Tables) (a : Alias)
    → IsSoundAlias a
    → is_some (find_alias a.alias t.aliases) ≡ false
    → IsSound t
    → IsSound (record t { aliases = t.aliases ++ a ∷ [] })
unfolding find_alias
with_alias-IsSound t a ok new s = record {
  users = s.users;
  users_apart = s.users_apart;
  hosts = s.hosts;
  hosts_apart = s.hosts_apart;
  aliases = All-append _ t.aliases (a ∷ []) s.aliases (ok, tt);
  aliases_apart =
      Apart-snoc _ t.aliases a s.aliases_apart
        (first_with-none (λ x. x.alias) a.alias t.aliases (is_none _ new));
}

save_alias-Triple :
    {K : Tables → Type 0} (a : Alias)
    → IsSoundAlias a
    → Triple IsSound K (save_alias a) (Any IsSound)
unfolding save_alias
save_alias-Triple a ok = insert-Triple IsSound _ _ (λ t i p new. with_alias-IsSound t a ok new i)

alias_exists-Triple :
    {K : Tables → Type 0} (alias : Bytes) → Triple IsSound K (alias_exists alias) (Any IsSound)
unfolding alias_exists exists_row alias_get
alias_exists-Triple alias =
    >>=-Triple IsSound (optional-Triple IsSound _) λ o. pure-Triple IsSound (λ t k. tt)

pub alias_add-Triple :
    {K : Tables → Type 0} (look_path : Bytes → Bool) (given deliver_to pipe : Bytes)
    (is_mini_list : Bool)
    → Triple IsSound K (alias_add look_path given deliver_to pipe is_mini_list) (Any IsSound)
unfolding alias_add
alias_add-Triple look_path given deliver_to pipe is_mini_list = guard-then IsSound _ _ λ _.
    guard-then IsSound _ _ λ list. >>=-Triple IsSound (alias_exists-Triple _) λ known.
      guard-then IsSound _ _ λ _. >>=-Triple IsSound (check_alias-Triple _ _) λ _.
        >>=-Triple IsSound (check_pipe-Triple look_path pipe) λ _.
          >>=-Triple IsSound (check_deliver_to-Triple _ _ deliver_to) λ rcpts.
            save_alias-Triple _
              (record { lower = to_lower_idem (trim_space given); mini_list = λ m d. ground arith })

transaction-Triple :
    {K : Tables → Type 0} {m : Action Done}
    → Triple IsSound K m (Any IsSound)
    → Triple IsSound K (transaction m) (Any IsSound)
unfolding transaction exec
transaction-Triple {K = K} {m = m} h = record { holds = λ db i k. go db i (m db) (h.holds db i k) }
  where
    commit :
        (db db' : Db) (x : Bool × List Bool)
        → IsSound db.tables
        → IsSound db'.tables
        → Ended IsSound {A = Done} (Any IsSound) (
            let (c, db″) : Returned Done × Db =
              if x.0
              then (error failed, record db' { faults = x.1 })
              else (value tt, record db' { faults = x.1 }) in
            elim c [
              | value _ ↦ (value tt, db″)
              | error e ↦ (error e, record db″ { tables = db.tables })
            ])
    commit db db' (true, bs) i i' = i
    commit db db' (false, bs) i i' = (i', tt)

    go :
        (db : Db)
        → IsSound db.tables
        → (x : Returned Done × Db) → Ended IsSound {A = Done} (Any IsSound) x
        → Ended IsSound {A = Done} (Any IsSound) (elim x.0 [
          | value _ ↦
              let (c, db″) = exec (λ t. t) x.1 in
              elim c [
                | value _ ↦ (value tt, db″)
                | error e ↦ (error e, record db″ { tables = db.tables })
              ]
          | error e ↦ (error e, record x.1 { tables = db.tables })
        ])
    go db i (value a, db') i' = commit db db' (next_fault db'.faults) i i'.0
    go db i (error e, db') i' = i

without_alias-IsSound :
    (t : Tables) (k : Bytes) → IsSound t → IsSound (record t { aliases = remove_alias k t.aliases })
unfolding remove_alias
without_alias-IsSound t k s = record {
  users = s.users;
  users_apart = s.users_apart;
  hosts = s.hosts;
  hosts_apart = s.hosts_apart;
  aliases = without_key-All (λ x. x.alias) _ k t.aliases s.aliases;
  aliases_apart = without_key-Apart (λ x. x.alias) _ k t.aliases s.aliases_apart;
}

delete_domain-Triple :
    {K : Tables → Type 0} (a : Alias) → Triple IsSound K (delete_domain a) (Any IsSound)
unfolding delete_domain
delete_domain-Triple {K = K} a = go a.is_dom_alias
  where
    go :
        (b : Bool)
        → Triple IsSound K
            (if b then exec (λ t. record t { hosts = remove_host a.alias t.hosts }) else pure tt)
            (Any IsSound)
    go true = exec-Triple IsSound _ (λ t i k. without_host-IsSound t a.alias i)
    go false = pure-Triple IsSound (λ t k. tt)

pub alias_del-Triple :
    {K : Tables → Type 0} (name : Bytes) → Triple IsSound K (alias_del name) (Any IsSound)
unfolding alias_del alias_get delete_rows
alias_del-Triple name = >>=-Triple IsSound (alias_failure-Triple (query-Triple IsSound _)) λ a.
    transaction-Triple (
      >>=-Triple IsSound (delete_domain-Triple a)
        λ _. exec-Triple IsSound _ (λ t i k. without_alias-IsSound t name i))

-- ===== src/Accounts/Deletion.antt =====
-- `AliasDel` does all of its work or nothing.
use tmail.Prelude.{Bytes, ◌≡◌, if◌then◌else◌, true, false, Bool, none, some, Option, List, refl}
use mathlib.Core.Path.{subst}
use tmail.Directory.{Alias}
use tmail.Accounts.{
  Tables, Db, Action, Done, Returned, value, error, not_found, failed, refused, query, exec,
  transaction, next_fault, or_not_found, after, find_alias, pure,
}
use tmail.Accounts.Hosts.{remove_host}
use tmail.Accounts.Aliases.{
  alias_get, alias_failure, delete_domain, delete_rows, remove_alias, alias_del,
}

-- The tables without the alias, and without its host if it is a domain.
abbrev pub deleted : Bytes → Alias → Tables → Tables
deleted name a t = record t {
  hosts = if a.is_dom_alias then remove_host a.alias t.hosts else t.hosts;
  aliases = remove_alias name t.aliases;
}

-- What the tables are if the action returns a value.
abbrev Yields : Tables → Returned Done × Db → Type 0
Yields t (value a, db) = db.tables ≡ t
Yields t (error e, db) = Unit

exec-Yields : (write : Tables → Tables) (db : Db) → Yields (write db.tables) (exec write db)
unfolding exec
exec-Yields write db = go (next_fault db.faults)
  where
    go :
        (x : Bool × List Bool)
        → Yields (write db.tables) (
            if x.0
            then (error failed, record db { faults = x.1 })
            else (value tt, record { tables = write db.tables; faults = x.1 }))
    go (true, bs) = tt
    go (false, bs) = refl

after-Yields :
    (t u : Tables) (x : Returned Done × Db) (k : Done → Action Done)
    → Yields t x
    → ((db : Db) → db.tables ≡ t → Yields u (k tt db))
    → Yields u (after k x)
after-Yields t u (value tt, db) k h f = f db h
after-Yields t u (error e, db) k h f = tt

abbrev without_domain : Alias → Tables → Tables
without_domain a t = record t {
  hosts = if a.is_dom_alias then remove_host a.alias t.hosts else t.hosts;
}

delete_domain-Yields :
    (a : Alias) (db : Db) → Yields (without_domain a db.tables) (delete_domain a db)
unfolding delete_domain
delete_domain-Yields a db = go a.is_dom_alias
  where
    go :
        (b : Bool)
        → Yields
            (record db.tables {
              hosts = if b then remove_host a.alias db.tables.hosts else db.tables.hosts;
            })
            ((if b then exec (λ t. record t { hosts = remove_host a.alias t.hosts }) else pure tt)
              db)
    go true = exec-Yields (λ t. record t { hosts = remove_host a.alias t.hosts }) db
    go false = refl

delete_rows-Yields :
    (name : Bytes) (a : Alias) (db : Db) → Yields (deleted name a db.tables) (delete_rows name a db)
unfolding delete_rows
delete_rows-Yields name a db =
    after-Yields (without_domain a db.tables) (deleted name a db.tables) (delete_domain a db) _
      (delete_domain-Yields a db)
      λ db' e.
        subst
          (λ x.
            Yields (record x { aliases = remove_alias name x.aliases })
              (exec (λ t. record t { aliases = remove_alias name t.aliases }) db'))
          e (exec-Yields (λ t. record t { aliases = remove_alias name t.aliases }) db')

-- The tables are `t` if the action returns a value, and `u` if it returns an error.
abbrev Either : Tables → Tables → Returned Done × Db → Type 0
Either t u (value a, db) = db.tables ≡ t
Either t u (error e, db) = db.tables ≡ u

transaction-Either :
    (body : Action Done) (t : Tables) (db : Db)
    → Yields t (body db)
    → Either t db.tables (transaction body db)
unfolding transaction exec
transaction-Either body t db h = go (body db) h
  where
    commit :
        (db' : Db) (x : Bool × List Bool)
        → db'.tables ≡ t
        → Either t db.tables (
            let (c, db″) : Returned Done × Db =
              if x.0
              then (error failed, record db' { faults = x.1 })
              else (value tt, record db' { faults = x.1 }) in
            elim c [
              | value _ ↦ (value tt, db″)
              | error e ↦ (error e, record db″ { tables = db.tables })
            ])
    commit db' (true, bs) e = refl
    commit db' (false, bs) e = e

    go :
        (x : Returned Done × Db)
        → Yields t x
        → Either t db.tables (elim x.0 [
          | value _ ↦
              let (c, db″) = exec (λ y. y) x.1 in
              elim c [
                | value _ ↦ (value tt, db″)
                | error e ↦ (error e, record db″ { tables = db.tables })
              ]
          | error e ↦ (error e, record x.1 { tables = db.tables })
        ])
    go (value a, db') e = commit db' (next_fault db'.faults) e
    go (error e, db') _ = refl

-- What `AliasDel` gives on `before`.
abbrev pub AllOrNothing : Bytes → Tables → Returned Done × Db → Type 0
AllOrNothing name before (value a, db) =
    (row : Alias) × (find_alias name before.aliases ≡ some row)
    × (db.tables ≡ deleted name row before)
AllOrNothing name before (error e, db) = db.tables ≡ before

end_found :
    (name : Bytes) (before : Tables) (a : Alias) (x : Returned Done × Db)
    → find_alias name before.aliases ≡ some a
    → Either (deleted name a before) before x
    → AllOrNothing name before x
end_found name before a (value u, db) f e = (a, f, e)
end_found name before a (error r, db) f e = e

-- Whichever calls of the database fail: AliasDel without an error found the alias and has deleted
-- it, together with its host if it is a domain, and nothing else; with an error it has left the
-- tables as they were.
pub alias_del-AllOrNothing :
    (name : Bytes) (db : Db) → AllOrNothing name db.tables (alias_del name db)
unfolding alias_del alias_failure alias_get query
alias_del-AllOrNothing name db = go (next_fault db.faults) (find_alias name db.tables.aliases) refl
  where
    found :
        (a : Alias) (bs : List Bool)
        → find_alias name db.tables.aliases ≡ some a
        → AllOrNothing name db.tables (transaction (delete_rows name a) (record db { faults = bs }))
    found a bs e = end_found name db.tables a _ e (
        transaction-Either (delete_rows name a) (deleted name a db.tables)
          (record db { faults = bs }) (delete_rows-Yields name a (record db { faults = bs })))

    go :
        (x : Bool × List Bool) (o : Option Alias)
        → find_alias name db.tables.aliases ≡ o
        → AllOrNothing name db.tables (
            after
              (λ a. transaction (delete_rows name a))
              (let (r, db') : Returned Alias × Db =
                  (if x.0 then error failed else or_not_found o, record db { faults = x.1 }) in
                elim r [
                  | value a ↦ (value a, db')
                  | error not_found ↦ (error (refused "Alias doesn't exists"), db')
                  | error e ↦ (error (refused "unable to get alias"), db')
                ]))
    go (true, bs) o e = refl
    go (false, bs) none e = refl
    go (false, bs) (some a) e = found a bs e

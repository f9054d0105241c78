-- ===== src/Accounts.antt =====
-- The tables behind core/user.go, core/alias.go, core/rcpthost.go, core/mailbox.go and
-- core/smtpd_relay_ip.go, and the calls of the database that these files make.
-- A row is found by equality of bytes, and a column marked `unique` refuses a second row. Any call
-- may fail: `faults` says so of each call to come.
pub mod Hosts
pub mod Users
pub mod Aliases
pub mod LocalRcpt
pub mod Triple
pub mod Rows
pub mod Places
pub mod Served
pub mod LogsIn
pub mod Deletion
pub mod Calls
pub mod Sound
use tmail.Prelude.{
  Bytes, ◌&&◌, ◌||◌, ◌∷◌, ◌==◌, if◌then◌else◌, [], true, false, Bool, none, some, Option, List,
  eq_bytes,
}
use tmail.Directory.{User, RcptHost, Alias}
use Prim.Native.String.{String}

pub record Mailbox : Type 0 where
  pub local_part : Bytes
  pub domain_part : Bytes

pub record Tables : Type 0 where
  pub users : List User
  pub hosts : List RcptHost
  pub aliases : List Alias
  pub mailboxes : List Mailbox
  pub relay_ips : List Bytes

-- Behind the end of `faults` no call fails.
pub record Db : Type 0 where
  pub tables : Tables
  pub faults : List Bool

-- `gorm.ErrRecordNotFound`; any other error of a library; an error that the source makes; a panic;
-- and the end of the model's fuel.
pub data Error : Type 0 where
  not_found failed panicked still_running : Error
  refused : String → Error

pub data Returned (A : Type 0) : Type 0 where
  value : A → Returned A
  error : Error → Returned A

abbrev pub Action : Type 0 → Type 0
Action A = Db → Returned A × Db

abbrev pub Done : Type 0
Done = Unit {0}

module _ {A : Type 0} where
  abbrev pub pure : A → Action A
  pure a db = (value a, db)

  abbrev pub raise : Error → Action A
  raise e db = (error e, db)

-- An error ends what is done.
abbrev pub after : {A B : Type 0} → (A → Action B) → Returned A × Db → Returned B × Db
after f (value a, db) = f a db
after f (error e, db) = (error e, db)

infixl 5 ◌>>=◌ ◌>>◌
abbrev pub ◌>>=◌ : {A B : Type 0} → Action A → (A → Action B) → Action B
◌>>=◌ m f db = after f (m db)

abbrev pub ◌>>◌ : {B : Type 0} → Action Done → Action B → Action B
m >> k = m >>= λ _. k

-- `if !b { return errors.New(...) }`
unfoldable pub guard : Bool → String → Action Done
guard b text db = (if b then value tt else error (refused text), db)

abbrev pub next_fault : List Bool → Bool × List Bool
next_fault [] = (false, [])
next_fault (b ∷ bs) = (b, bs)

abbrev pub or_not_found : {A : Type 0} → Option A → Returned A
or_not_found none = error not_found
or_not_found (some a) = value a

-- `Find` and `First` of one record
unfoldable pub query : {A : Type 0} → (Tables → Option A) → Action A
query find db =
    let (bad, rest) = next_fault db.faults in
    (if bad then error failed else or_not_found (find db.tables), record db { faults = rest })

-- a statement that writes
unfoldable pub exec : (Tables → Tables) → Action Done
exec write db =
    let (bad, rest) = next_fault db.faults in
    if bad
    then (error failed, record db { faults = rest })
    else (value tt, record { tables = write db.tables; faults = rest })

-- a new row, where a unique column must not hold its value yet
unfoldable pub insert : (Tables → Bool) → (Tables → Tables) → Action Done
insert taken write db =
    let (bad, rest) = next_fault db.faults in
    if bad || taken db.tables
    then (error failed, record db { faults = rest })
    else (value tt, record { tables = write db.tables; faults = rest })

-- `Begin`, the statements, and `Commit`, or `Rollback` at an error
unfoldable pub transaction : Action Done → Action Done
transaction body db =
    let (r, db') = body db in
    elim r [
      | value _ ↦
          let (c, db″) = exec (λ t. t) db' in
          elim c [
            | value _ ↦ (value tt, db″)
            | error e ↦ (error e, record db″ { tables = db.tables })
          ]
      | error e ↦ (error e, record db' { tables = db.tables })
    ]

-- a lookup where "record not found" is no error
unfoldable pub optional : {A : Type 0} → Action A → Action (Option A)
optional m db =
    let (r, db') = m db in
    elim r [
      | value a ↦ (value (some a), db')
      | error not_found ↦ (value none, db')
      | error e ↦ (error e, db')
    ]

abbrev pub is_some : {A : Type 0} → Option A → Bool
is_some none = false
is_some (some a) = true

-- the tests that end in `Exists`
unfoldable pub exists_row : {A : Type 0} → Action A → Action Bool
exists_row m = do row ← optional m; pure (is_some row)

-- a result of a library that may be an error
unfoldable pub attempt : {A : Type 0} → Option A → Action A
attempt none = raise failed
attempt (some a) = pure a

-- `WHERE key = ?`: the first such row, and the rows that are left when such rows are deleted
module _ {A : Type 0} (key : A → Bytes) where
  unfoldable pub first_with : Bytes → List A → Option A
  first_with k [] = none
  first_with k (a ∷ rest) = if eq_bytes (key a) k then some a else first_with k rest

  unfoldable pub without_key : Bytes → List A → List A
  without_key k [] = []
  without_key k (a ∷ rest) =
      let kept = without_key k rest in if eq_bytes (key a) k then kept else a ∷ kept

unfoldable pub find_user : Bytes → List User → Option User
find_user = first_with (λ u. u.login)

unfoldable pub find_host : Bytes → List RcptHost → Option RcptHost
find_host = first_with (λ h. h.hostname)

unfoldable pub find_alias : Bytes → List Alias → Option Alias
find_alias = first_with (λ a. a.alias)

-- `LIKE`, with `%` for any text and `_` for any byte
unfoldable pub like : Bytes → Bytes → Bool
like [] [] = true
like [] (c ∷ s) = false
like (p ∷ ps) [] = p == b'%' && like ps []
like (p ∷ ps) (c ∷ s) =
    let one = (p == b'_' || p == c) && like ps s in
    let any = like ps (c ∷ s) || like (p ∷ ps) s in if p == b'%' then any else one

unfoldable pub later_or : {A : Type 0} → Option A → Option A → Option A
later_or none before = before
later_or (some a) before = some a

-- `Find` into one struct takes every such row, and the last one stays
unfoldable pub find_catchall : Bytes → List User → Option User
unfolding later_or
find_catchall pattern [] = none
find_catchall pattern (u ∷ us) =
    later_or (find_catchall pattern us)
      (if like pattern u.login && u.is_catchall then some u else none)

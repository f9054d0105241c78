-- ===== src/Accounts/Triple.antt =====
-- What an action keeps of the tables, however it ends, and what it says of a value that it returns.
use tmail.Prelude.{◌≡◌, refl, true, false, Bool, Option, ◌||◌, if◌then◌else◌, none, some, List}
use tmail.Accounts.{
  Tables, Db, Action, Returned, value, error, ◌>>=◌, after, String, query, guard, Done, pure, Error,
  attempt, failed, exec, insert, optional, raise, or_not_found, next_fault, ◌>>◌, not_found,
}

module _ (I : Tables → Type 0) where
  abbrev pub Ended : {A : Type 0} → (A → Tables → Type 0) → Returned A × Db → Type 0
  Ended Q (value a, db) = I db.tables × Q a db.tables
  Ended Q (error e, db) = I db.tables

  -- On tables with `I` and `K`, `m` keeps `I`, and the value it returns has `Q` with the tables.
  pub record Triple {A : Type 0} (K : Tables → Type 0) (m : Action A) (Q : A → Tables → Type 0)
      : Type 0 where
    pub holds : (db : Db) → I db.tables → K db.tables → Ended Q (m db)

  abbrev pub Any : {A : Type 0} → A → Tables → Type 0
  Any a t = Unit

  module _ {K : Tables → Type 0} where
    pub >>=-Triple :
        {A B : Type 0} {m : Action A} {f : A → Action B} {Q : A → Tables → Type 0}
        {R : B → Tables → Type 0}
        → Triple K m Q
        → ((a : A) → Triple (Q a) (f a) R)
        → Triple K (m >>= f) R
    >>=-Triple {A = A} {m = m} {f = f} {Q = Q} {R = R} h k = record {
      holds = λ db i p. go (m db) (h.holds db i p);
    }
      where
        go : (x : Returned A × Db) → Ended Q x → Ended R (after f x)
        go (value a, db) (i, q) = (k a).holds db i q
        go (error e, db) i = i

    pub pure-Triple :
        {A : Type 0} {Q : A → Tables → Type 0} {a : A}
        → ((t : Tables) → K t → Q a t)
        → Triple K (pure a) Q
    pure-Triple q = record { holds = λ db i p. (i, q db.tables p) }

    pub raise-Triple : {A : Type 0} {Q : A → Tables → Type 0} {e : Error} → Triple K (raise e) Q
    raise-Triple = record { holds = λ db i p. i }

    -- A condition that holds of the tables may be narrowed.
    pub weaken-Triple :
        {A : Type 0} {m : Action A} {Q : A → Tables → Type 0} {K' : Tables → Type 0}
        → ((t : Tables) → K t → K' t)
        → Triple K' m Q
        → Triple K m Q
    weaken-Triple w h = record { holds = λ db i p. h.holds db i (w db.tables p) }

    -- What is said of the value may be weakened.
    pub post-Triple :
        {A : Type 0} {m : Action A} {Q R : A → Tables → Type 0}
        → ((a : A) (t : Tables) → Q a t → R a t)
        → Triple K m Q
        → Triple K m R
    post-Triple {A = A} {m = m} {Q = Q} {R = R} w h = record {
      holds = λ db i p. go (m db) (h.holds db i p);
    }
      where
        go : (x : Returned A × Db) → Ended Q x → Ended R x
        go (value a, db) (i, q) = (i, w a db.tables q)
        go (error e, db) i = i

    -- A condition that does not speak of the tables.
    pub fact-Triple :
        {A F : Type 0} {m : Action A} {Q : A → Tables → Type 0}
        → (F → Triple K m Q)
        → Triple (λ t. F × K t) m Q
    fact-Triple k = record { holds = λ db i p. (k p.0).holds db i p.1 }

    pub guard-Triple :
        {Q : Done → Tables → Type 0} (b : Bool) (text : String)
        → ((t : Tables) → b ≡ true → K t → Q tt t)
        → Triple K (guard b text) Q
    guard-Triple true text k = unfold guard in pure-Triple (λ t. k t refl)
    guard-Triple false text k = unfold guard in raise-Triple

    pub guard-then :
        {B : Type 0} {R : B → Tables → Type 0} {m : Action B} (b : Bool) (text : String)
        → (b ≡ true → Triple K m R)
        → Triple K (guard b text >> m) R
    guard-then true text k = unfold guard in k refl
    guard-then false text k = unfold guard in raise-Triple

    pub attempt-then :
        {A B : Type 0} {R : B → Tables → Type 0} {f : A → Action B} (o : Option A)
        → ((a : A) → Triple K (f a) R)
        → Triple K (attempt o >>= f) R
    attempt-then none k = unfold attempt in raise-Triple
    attempt-then (some a) k = unfold attempt in k a

    pub attempt-eq :
        {A B : Type 0} {R : B → Tables → Type 0} {f : A → Action B} (o : Option A)
        → ((a : A) → o ≡ some a → Triple K (f a) R)
        → Triple K (attempt o >>= f) R
    attempt-eq none k = unfold attempt in raise-Triple
    attempt-eq (some a) k = unfold attempt in k a refl

    pub query-Triple :
        {A : Type 0} (find : Tables → Option A)
        → Triple K (query find) (λ a t. K t × (find t ≡ some a))
    unfolding query
    query-Triple {A = A} find = record {
      holds = λ db i p. go db (next_fault db.faults) (find db.tables) refl i p;
    }
      where
        go :
            (db : Db) (x : Bool × List Bool) (o : Option A)
            → find db.tables ≡ o
            → I db.tables
            → K db.tables
            → Ended {A = A}
                (λ a t. K t × (find t ≡ some a))
                (if x.0 then error failed else or_not_found o, record db { faults = x.1 })
        go db (true, bs) o e i p = i
        go db (false, bs) none e i p = i
        go db (false, bs) (some a) e i p = (i, (p, e))

    pub optional-Triple :
        {A : Type 0} (find : Tables → Option A)
        → Triple K (optional (query find)) (λ o t. K t × (find t ≡ o))
    unfolding optional query
    optional-Triple {A = A} find = record {
      holds = λ db i p. go db (next_fault db.faults) (find db.tables) refl i p;
    }
      where
        go :
            (db : Db) (x : Bool × List Bool) (o : Option A)
            → find db.tables ≡ o
            → I db.tables
            → K db.tables
            → Ended {A = Option A}
                (λ o t. K t × (find t ≡ o))
                (elim (if x.0 then error failed else or_not_found o) [
                  | value a ↦ (value (some a), record db { faults = x.1 })
                  | error not_found ↦ (value none, record db { faults = x.1 })
                  | error e ↦ (error e, record db { faults = x.1 })
                ])
        go db (true, bs) o e i p = i
        go db (false, bs) none e i p = (i, (p, e))
        go db (false, bs) (some a) e i p = (i, (p, e))

    pub exec-Triple :
        (write : Tables → Tables)
        → ((t : Tables) → I t → K t → I (write t))
        → Triple K (exec write) Any
    unfolding exec
    exec-Triple write k = record { holds = λ db i p. go (next_fault db.faults) db i p }
      where
        go :
            (x : Bool × List Bool) (db : Db)
            → I db.tables
            → K db.tables
            → Ended {A = Done} Any (
                if x.0
                then (error failed, record db { faults = x.1 })
                else (value tt, record { tables = write db.tables; faults = x.1 }))
        go (true, bs) db i p = i
        go (false, bs) db i p = (k db.tables i p, tt)

    pub insert-then :
        {Q : Done → Tables → Type 0} (taken : Tables → Bool) (write : Tables → Tables)
        → ((t : Tables) → I t → K t → taken t ≡ false → I (write t) × Q tt (write t))
        → Triple K (insert taken write) Q
    unfolding insert
    insert-then {Q = Q} taken write k = record {
      holds = λ db i p. go db (next_fault db.faults) (taken db.tables) refl i p;
    }
      where
        go :
            (db : Db) (x : Bool × List Bool) (b : Bool)
            → taken db.tables ≡ b
            → I db.tables
            → K db.tables
            → Ended {A = Done} Q (
                if x.0 || b
                then (error failed, record db { faults = x.1 })
                else (value tt, record { tables = write db.tables; faults = x.1 }))
        go db (true, bs) b e i p = i
        go db (false, bs) true e i p = i
        go db (false, bs) false e i p = k db.tables i p e

    pub insert-Triple :
        (taken : Tables → Bool) (write : Tables → Tables)
        → ((t : Tables) → I t → K t → taken t ≡ false → I (write t))
        → Triple K (insert taken write) Any
    insert-Triple taken write k = insert-then taken write (λ t i p e. (k t i p e, tt))

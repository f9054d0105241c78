-- ===== src/Accounts/LogsIn.antt =====
-- A user that `UserAdd` adds may log in.
use tmail.Accounts.LocalRcpt.Steps.{healthy}
use tmail.Prelude.{
  ◌≤◌, sym, arith, Bytes, ◌≡◌, ◌∷◌, ◌++◌, if◌then◌else◌, [], true, false, Bool, some, refl, ◌==◌,
  length,
}
use mathlib.Core.Path.{subst}
use tmail.Directory.{User}
use tmail.Accounts.Rows.{first_with-last}
use tmail.Text.{split, part, to_lower}
use tmail.Accounts.{
  Done, Tables, Db, Action, Returned, value, error, first_with, find_user, pure, guard, query,
}
use tmail.Accounts.Hosts.{rcpthost_get}
use tmail.Accounts.{optional}
use tmail.Accounts.Users.{
  claim_host, initial, check_catchall, user_get, UserWorld, with_mailbox, save_user, user_add,
  logged,
}
use tmail.Accounts.Triple.{
  Triple, Ended, Any, >>=-Triple, guard-then, attempt-eq, post-Triple, fact-Triple, insert-then,
  pure-Triple,
}
use tmail.Accounts.Sound.Hosts.{is_none}

-- Nothing is asked of the tables.
abbrev Free : Tables → Type 0
Free t = Unit

Any-Triple : {A : Type 0} {K : Tables → Type 0} (m : Action A) → Triple Free K m (Any Free)
Any-Triple {A = A} m = record { holds = λ db i k. go (m db) }
  where
    go : (x : Returned A × Db) → Ended Free {A = A} (Any Free) x
    go (value a, db) = (tt, tt)
    go (error e, db) = tt

-- What the user that is saved has of the call.
pub record IsNamed (name : Bytes) (b r c : Bool) (u : User) : Type 0 where
  pub login : u.login ≡ name
  pub have_mailbox : u.have_mailbox ≡ b
  pub auth_relay : u.auth_relay ≡ r
  pub is_catchall : u.is_catchall ≡ c

module _ (w : UserWorld) (name : Bytes) (b r c : Bool) where
  abbrev Named : User → Type 0
  Named = IsNamed name b r c

  with_mailbox-Named :
      {K : Tables → Type 0} (quota : Bytes) (u : User)
      → Named u
      → Triple Free K (with_mailbox w quota u) (λ v t. Named v × Unit {0})
  unfolding with_mailbox
  with_mailbox-Named quota u n =
      let t = split u.login (64 ∷ []) in
      guard-then Free _ _ λ _. guard-then Free _ _ λ _. guard-then Free _ _ λ _.
        >>=-Triple Free (Any-Triple (optional (rcpthost_get (part 1 t)))) λ host.
          >>=-Triple Free (Any-Triple (claim_host (part 1 t) host)) λ _.
            >>=-Triple Free (Any-Triple (initial (part 1 t))) λ _.
              >>=-Triple Free (Any-Triple (initial (part 0 t))) λ _.
                >>=-Triple Free (Any-Triple (check_catchall u.is_catchall (part 1 t))) λ _.
                  pure-Triple Free λ t k. (
                    record {
                      login = n.login;
                      have_mailbox = n.have_mailbox;
                      auth_relay = n.auth_relay;
                      is_catchall = n.is_catchall;
                    },
                    tt,
                  )

  boxed-Named :
      {K : Tables → Type 0} (quota : Bytes) (u : User) (boxed : Bool)
      → Named u
      → Triple Free K (if boxed then with_mailbox w quota u else pure u) (λ v t. Named v × Unit {0})
  boxed-Named quota u true n = with_mailbox-Named quota u n
  boxed-Named quota u false n = pure-Triple Free (λ t k. (n, tt))

  -- The user is in the tables, under its name, with this hash.
  abbrev Saved : Bytes → Tables → Type 0
  Saved hash t = (u : User) × (find_user name t.users ≡ some u) × (u.passwd ≡ hash) × Named u

  save_user-Saved :
      {K : Tables → Type 0} (u : User)
      → Named u
      → Triple Free K (save_user u) (λ _ t. Saved u.passwd t)
  unfolding save_user find_user
  save_user-Saved u n = insert-then Free _ _ λ t i k new. (
    tt,
    (
      u,
      subst (λ x. first_with (λ y. y.login) x (t.users ++ u ∷ []) ≡ some u) n.login
          (first_with-last (λ y. y.login) t.users u (is_none _ new)),
      refl,
      n,
    ),
  )

-- What a successful `UserAdd` leaves.
abbrev Added : UserWorld → Bytes → Bytes → Bool → Bool → Bool → Tables → Type 0
Added w given passwd b r c t =
    (hash : Bytes) × (w.bcrypt passwd ≡ some hash)
    × (4 ≤ length (to_lower given))
    × (6 ≤ length passwd)
    × Saved w (to_lower given) b r c hash t

user_add-Added :
    (w : UserWorld) (given passwd quota : Bytes) (b r c : Bool)
    → Triple Free Free (user_add w given passwd quota b r c) (λ _ t. Added w given passwd b r c t)
unfolding user_add
user_add-Added w given passwd quota b r c =
    let u : User = record {
      login = to_lower given;
      passwd = [];
      dove_passwd = [];
      auth_relay = r;
      have_mailbox = b;
      is_catchall = c;
      mailbox_quota = [];
      home = [];
    } in
    guard-then Free _ _ λ short. guard-then Free _ _ λ long. guard-then Free _ _ λ full.
      guard-then Free _ _ λ _.
        >>=-Triple Free
          (boxed-Named w (to_lower given) b r c quota u b
            (record { login = refl; have_mailbox = refl; auth_relay = refl; is_catchall = refl }))
          λ v. fact-Triple Free λ n. attempt-eq Free _ λ hash e. attempt-eq Free _ λ salt _.
            attempt-eq Free _ λ dove _.
              let saved : User = record v { passwd = hash; dove_passwd = dove } in
              post-Triple Free (λ _ t s. (hash, e, ground arith, ground arith, s))
                (save_user-Saved w (to_lower given) b r c saved (record {
                  login = n.login;
                  have_mailbox = n.have_mailbox;
                  auth_relay = n.auth_relay;
                  is_catchall = n.is_catchall;
                }))

user_get-logged :
    (w : UserWorld) (name passwd : Bytes) (t : Tables) (u : User)
    → (length name == 0) ≡ false
    → (length passwd == 0) ≡ false
    → find_user name t.users ≡ some u
    → w.matches u.passwd passwd ≡ true
    → (user_get w name passwd (healthy t)).0 ≡ value (logged u)
unfolding user_get guard query
user_get-logged w name passwd t u long full found good = rw (long, full, found, good) refl

-- A password matches the hash that bcrypt makes of it.
abbrev pub Matches : UserWorld → Type 0
Matches w = (passwd hash : Bytes) → w.bcrypt passwd ≡ some hash → w.matches hash passwd ≡ true

value_post :
    (Q : Done → Tables → Type 0) (x : Returned Done × Db)
    → x.0 ≡ value tt
    → Ended Free Q x
    → Q tt x.1.tables
value_post Q (value _, db) e (i, q) = q
value_post Q (error r, db) e i = cc

-- If a password matches the hash that bcrypt makes of it, then after a `UserAdd` without an error
-- the user, named in lower case, logs in with the password, and has the flags of the call. Calls of
-- the database that fail may come before, not at the login.
pub user_add-logged :
    (w : UserWorld)
    → Matches w
    → (given passwd quota : Bytes) (b r c : Bool) (db : Db)
    → (user_add w given passwd quota b r c db).0 ≡ value tt
    → (u : User) × ((user_get w
          (to_lower given)
          passwd
          (healthy (user_add w given passwd quota b r c db).1.tables)).0
        ≡ value (logged u))
      × IsNamed (to_lower given) b r c u
user_add-logged w matches given passwd quota b r c db h =
    let (hash, made, long, full, (u, found, same, named)) =
      value_post _ (user_add w given passwd quota b r c db) h
        ((user_add-Added w given passwd quota b r c).holds db tt tt) in
    (
      u,
      user_get-logged w (to_lower given) passwd (user_add w given passwd quota b r c db).1.tables u
          (ground arith) (ground arith) found
          (subst (λ x. w.matches x passwd ≡ true) (sym same) (matches passwd hash made)),
      named,
    )

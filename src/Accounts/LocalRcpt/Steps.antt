-- ===== src/Accounts/LocalRcpt/Steps.antt =====
-- `IsValidLocalRcpt` on a database of which no call fails.
use tmail.Directory.{Alias}
use tmail.Text.{to_lower, split}
use tmail.Accounts.Aliases.{alias_exists, alias_get}
use tmail.Accounts.Users.{user_get_by_login, user_get_catchall_for_domain}
use tmail.Prelude.{
  Bytes, ◌≡◌, ◌||◌, ◌∷◌, ◌++◌, if◌then◌else◌, [], ℕ, suc, true, Bool, none, some, Option, refl, inl,
  inr, Bool-cases,
}
use tmail.Accounts.{
  Tables, Db, Action, error, not_found, optional, query, find_alias, find_catchall, find_user,
  is_some, exists_row, value,
}
use tmail.Accounts.LocalRcpt.{is_valid_local_rcpt, by_domain, has_catchall, has_box, through_alias}

abbrev pub healthy : Tables → Db
healthy t = record { tables = t; faults = [] }

optional-query :
    {A : Type 0} (find : Tables → Option A) (t : Tables) (o : Option A)
    → find t ≡ o
    → optional (query find) (healthy t) ≡ (value o, healthy t)
unfolding optional query
optional-query find t none e = rw (optional, e)
optional-query find t (some a) e = rw (optional, e)

pub optional-user :
    (login : Bytes) (t : Tables)
    → optional (user_get_by_login login) (healthy t)
      ≡ (value (find_user (to_lower login) t.users), healthy t)
unfolding user_get_by_login
optional-user login t = optional-query (λ x. find_user (to_lower login) x.users) t _ refl

pub optional-catchall :
    (d : Bytes) (t : Tables)
    → optional (user_get_catchall_for_domain d) (healthy t)
      ≡ (value (find_catchall (b'%' ∷ to_lower d) t.users), healthy t)
unfolding user_get_catchall_for_domain
optional-catchall d t = optional-query (λ x. find_catchall (b'%' ∷ to_lower d) x.users) t _ refl

optional-alias :
    (d : Bytes) (t : Tables)
    → optional (alias_get d) (healthy t) ≡ (value (find_alias d t.aliases), healthy t)
unfolding alias_get
optional-alias d t = optional-query (λ x. find_alias d x.aliases) t _ refl

pub alias_exists-healthy :
    (d : Bytes) (t : Tables)
    → alias_exists d (healthy t) ≡ (value (is_some (find_alias (to_lower d) t.aliases)), healthy t)
unfolding alias_exists exists_row
alias_exists-healthy d t = rw (optional-alias (to_lower d) t)

pub has_catchall-healthy :
    (d : Bytes) (t : Tables)
    → has_catchall d (healthy t)
      ≡ (value (is_some (find_catchall (b'%' ∷ to_lower d) t.users)), healthy t)
unfolding has_catchall
has_catchall-healthy d t = rw (optional-catchall d t)

-- A recipient with a place of its own: a mailbox or an alias.
abbrev pub has_place : Tables → Bytes → Bool
has_place t rcpt =
    has_box (find_user (to_lower rcpt) t.users) || is_some (find_alias (to_lower rcpt) t.aliases)

pub is_valid-step :
    (n : ℕ) (rcpt : Bytes) (t : Tables)
    → is_valid_local_rcpt (suc n) rcpt (healthy t) ≡ (
        if has_place t rcpt
        then (value true, healthy t)
        else by_domain (is_valid_local_rcpt n) (split rcpt (64 ∷ [])) (healthy t))
unfolding is_valid_local_rcpt
is_valid-step n rcpt t = elim (Bool-cases (has_box (find_user (to_lower rcpt) t.users))) [
  | inl box ↦ rw (optional-user rcpt t, box)
  | inr no_box ↦ elim (Bool-cases (is_some (find_alias (to_lower rcpt) t.aliases))) [
    | inl known ↦ rw (optional-user rcpt t, no_box, alias_exists-healthy rcpt t, known)
    | inr new ↦ rw (optional-user rcpt t, no_box, alias_exists-healthy rcpt t, new)
  ]
]

pub by_domain-step :
    (again : Bytes → Action Bool) (l d : Bytes) (t : Tables)
    → by_domain again (l ∷ d ∷ []) (healthy t) ≡ (
        if is_some (find_alias (to_lower d) t.aliases)
        then through_alias again l d (healthy t)
        else (value (is_some (find_catchall (b'%' ∷ to_lower d) t.users)), healthy t))
unfolding by_domain
by_domain-step again l d t = elim (Bool-cases (is_some (find_alias (to_lower d) t.aliases))) [
  | inl known ↦ rw (alias_exists-healthy d t, known)
  | inr new ↦ rw (alias_exists-healthy d t, new, has_catchall-healthy d t)
]

pub through_alias-some :
    (again : Bytes → Action Bool) (l d : Bytes) (t : Tables) (a : Alias)
    → find_alias d t.aliases ≡ some a
    → through_alias again l d (healthy t) ≡ again (l ++ (64 ∷ a.deliver_to)) (healthy t)
unfolding through_alias alias_get query
through_alias-some again l d t a h = rw h

pub through_alias-none :
    (again : Bytes → Action Bool) (l d : Bytes) (t : Tables)
    → find_alias d t.aliases ≡ none
    → through_alias again l d (healthy t) ≡ (error not_found, healthy t)
unfolding through_alias alias_get query
through_alias-none again l d t h = rw h

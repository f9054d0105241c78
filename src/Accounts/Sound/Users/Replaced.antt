-- ===== src/Accounts/Sound/Users/Replaced.antt =====
-- A row of the users that is replaced by one of the same login.
use tmail.Prelude.{◌≡◌, ◌∷◌, [], Bool-cases, List, All, eq_bytes, eq_bytes_iff, inl, inr, ◌∙◌}
use mathlib.Core.Path.{subst}
use tmail.Directory.{User}
use tmail.Accounts.Users.{replace_user}
use tmail.Accounts.Rows.{Apart, All-map}
use tmail.Accounts.Sound.{IsSoundUser, AreApart}

-- `v` differs from `u` in its passwords only, as far as the tables are sound.
pub record Keeps (v u : User) : Type 0 where
  pub login : v.login ≡ u.login
  pub is_catchall : v.is_catchall ≡ u.is_catchall
  pub have_mailbox : v.have_mailbox ≡ u.have_mailbox

module _ (u v : User) (k : Keeps v u) where
  abbrev Only : List User → Type 0
  Only us = All (λ w. w.login ≡ u.login → w ≡ u) us

  replace_user-All :
      (P : User → Type 0) (us : List User)
      → Only us
      → (P u → P v)
      → All P us
      → All P (replace_user v us)
  unfolding replace_user
  replace_user-All P [] only f h = tt
  replace_user-All P (w ∷ us) (one, only) f (p, ps) = elim (Bool-cases (eq_bytes w.login v.login)) [
    | inl same ↦
        let is_u = one ((eq_bytes_iff w.login v.login).0 same ∙ k.login) in
        rw same (f (subst P is_u p), replace_user-All P us only f ps)
    | inr other ↦ rw other (p, replace_user-All P us only f ps)
  ]

  sound : IsSoundUser u → IsSoundUser v
  sound s = record {
    lower = rw k.login s.lower;
    long = rw k.login s.long;
    short = rw k.login s.short;
    address = rw (k.login, k.have_mailbox) s.address;
    catchall = rw (k.is_catchall, k.have_mailbox) s.catchall;
  }

  apart_left : (w : User) → AreApart u w → AreApart v w
  apart_left w a = record {
    logins = rw k.login a.logins;
    domains = rw (k.is_catchall, k.login) a.domains;
  }

  apart_right : (w : User) → AreApart w u → AreApart w v
  apart_right w a = record {
    logins = rw k.login a.logins;
    domains = rw (k.is_catchall, k.login) a.domains;
  }

  pub replace_user-IsSoundUser :
      (us : List User) → Only us → All IsSoundUser us → All IsSoundUser (replace_user v us)
  replace_user-IsSoundUser us only = replace_user-All IsSoundUser us only sound

  pub replace_user-Apart :
      (us : List User) → Only us → Apart AreApart us → Apart AreApart (replace_user v us)
  unfolding replace_user
  replace_user-Apart [] only h = tt
  replace_user-Apart (w ∷ us) (one, only) (first, rest) =
      let first' = replace_user-All (AreApart w) us only (apart_right w) first in
      elim (Bool-cases (eq_bytes w.login v.login)) [
        | inl same ↦
            let is_u = one ((eq_bytes_iff w.login v.login).0 same ∙ k.login) in
            rw same (
              All-map (replace_user v us) (λ x a. apart_left x (subst (λ y. AreApart y x) is_u a))
                  first',
              replace_user-Apart us only rest,
            )
        | inr other ↦ rw other (first', replace_user-Apart us only rest)
      ]

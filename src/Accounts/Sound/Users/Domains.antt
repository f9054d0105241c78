-- ===== src/Accounts/Sound/Users/Domains.antt =====
-- The domain of a login, and the search for the catchall of a domain by `LIKE`.
use tmail.Prelude.{
  Bytes, ◌≡◌, ◌∷◌, ◌++◌, ◌&&◌, ◌==◌, [], true, false, none, All, refl, length, List, arith, sym,
  ◌∙◌, inl, inr, Bool-cases, ◌≢◌, ap, ℕ, some, Option,
}
use tmail.Text.{to_lower, split, part, join}
use tmail.Text.Parts.{join-split}
use mathlib.Core.Path.{subst}
use tmail.Directory.{User}
use tmail.Accounts.Sound.{IsSoundUser, AreApart, domain_of}
use tmail.Accounts.{later_or, find_catchall, like}

like-longer : (p s : Bytes) (c : ℕ) → like p s ≡ true → like (b'%' ∷ p) (c ∷ s) ≡ true
unfolding like
like-longer [] [] c h = refl
like-longer [] (x ∷ s) c h = cc
like-longer (y ∷ p) [] c h = ground arith
like-longer (y ∷ p) (x ∷ s) c h = ground arith

like-same : (p s : Bytes) (c : ℕ) → c ≢ b'%' → like p s ≡ true → like (c ∷ p) (c ∷ s) ≡ true
unfolding like
like-same p s c ne h = ground arith

like_refl : (d : Bytes) → like d d ≡ true
like_refl [] = unfold like in refl
like_refl (c ∷ d) = elim (Bool-cases (c == b'%')) [
  | inl any ↦ let e : c ≡ b'%' = ground arith in rw e (like-longer d d b'%' (like_refl d))
  | inr one ↦ like-same d d c (ground arith) (like_refl d)
]

-- `%` stands for any text in front.
pub like-suffix : (l d : Bytes) → like (b'%' ∷ d) (l ++ d) ≡ true
unfolding like
like-suffix [] [] = refl
like-suffix [] (c ∷ d) = ground (arith, like_refl (c ∷ d))
like-suffix (c ∷ l) d = ground (arith, like-suffix l d)

like-tail : (l d : Bytes) → like (b'%' ∷ d) (l ++ (64 ∷ d)) ≡ true
unfolding like
like-tail [] d = ground (arith, like-suffix [] d)
like-tail (c ∷ l) d = ground (arith, like-tail l d)

later_or-none : (x y : Option User) → later_or x y ≡ none → (x ≡ none) × (y ≡ none)
unfolding later_or
later_or-none none y h = (refl, h)
later_or-none (some u) y h = cc

pub find_catchall-none :
    (p : Bytes) (us : List User)
    → find_catchall p us ≡ none
    → All (λ v. v.is_catchall ≡ true → like p v.login ≡ false) us
unfolding find_catchall
find_catchall-none p [] h = tt
find_catchall-none p (v ∷ us) h =
    let (later, here) = later_or-none (find_catchall p us) _ h in
    elim (Bool-cases (like p v.login && v.is_catchall)) [
      | inl found ↦ cc (rw found at here)
      | inr other ↦ (λ k. ground arith, find_catchall-none p us later)
    ]

two : (ps : List Bytes) → length ps ≡ 2 → join ps (64 ∷ []) ≡ part 0 ps ++ (64 ∷ part 1 ps)
unfolding join part
two [] h = absurd (omega arith)
two (p ∷ []) h = absurd (omega arith)
two (p ∷ (q ∷ [])) h = refl
two (p ∷ (q ∷ (r ∷ ps))) h = absurd (omega arith)

-- A login of two parts ends in its domain.
login_parts :
    (u : User)
    → length (split u.login (64 ∷ [])) ≡ 2
    → u.login ≡ part 0 (split u.login (64 ∷ [])) ++ (64 ∷ domain_of u)
login_parts u h = sym (join-split 64 u.login) ∙ two (split u.login (64 ∷ [])) h

lower_end : (l s : Bytes) → to_lower (l ++ s) ≡ l ++ s → to_lower s ≡ s
unfolding to_lower
lower_end [] s h = h
lower_end (c ∷ l) s h = lower_end l s cc

pub domain-lower :
    (u : User)
    → length (split u.login (64 ∷ [])) ≡ 2
    → to_lower u.login ≡ u.login
    → to_lower (domain_of u) ≡ domain_of u
domain-lower u parts lower =
    let whole = login_parts u parts in
    let l = part 0 (split u.login (64 ∷ [])) in
    let ends : to_lower (l ++ (64 ∷ domain_of u)) ≡ l ++ (64 ∷ domain_of u) =
      sym (ap to_lower whole) ∙ (lower ∙ whole) in
    lower_end (64 ∷ []) (domain_of u) (lower_end l (64 ∷ domain_of u) ends)

-- `LIKE` finds a user of the domain.
like-domain :
    (v : User) (d : Bytes)
    → IsSoundUser v
    → v.is_catchall ≡ true
    → domain_of v ≡ d
    → like (b'%' ∷ d) v.login ≡ true
like-domain v d s catchall same =
    let parts = s.address (s.catchall catchall) in
    let l = part 0 (split v.login (64 ∷ [])) in
    subst (λ x. like (b'%' ∷ d) x ≡ true) (sym (login_parts v parts))
      (subst (λ x. like (b'%' ∷ d) (l ++ (64 ∷ x)) ≡ true) (sym same) (like-tail l d))

-- A new user is apart from all others, if its login is new and, for a catchall, its domain has none.
pub All-apart :
    (us : List User) (u : User)
    → IsSoundUser u
    → (u.is_catchall ≡ true → find_catchall (b'%' ∷ to_lower (domain_of u)) us ≡ none)
    → All (λ x. x.login ≢ u.login) us
    → All IsSoundUser us
    → All (λ x. AreApart x u) us
All-apart us u ok fresh logins sound =
    go us logins sound λ c. find_catchall-none (b'%' ∷ to_lower (domain_of u)) us (fresh c)
  where
    go :
        (xs : List User)
        → All (λ x. x.login ≢ u.login) xs
        → All IsSoundUser xs
        → (u.is_catchall ≡ true
            → All
                (λ v. v.is_catchall ≡ true → like (b'%' ∷ to_lower (domain_of u)) v.login ≡ false)
                xs)
        → All (λ x. AreApart x u) xs
    go [] n s f = tt
    go (x ∷ xs) (n, ns) (s, ss) f = (
      record {
        logins = n;
        domains = λ cx cu same.
            let lower = domain-lower u (ok.address (ok.catchall cu)) ok.lower in
            let found = like-domain x (to_lower (domain_of u)) s cx (same ∙ sym lower) in
            let not_found = (f cu).0 cx in cc (← found, ← not_found);
      },
      go xs ns ss (λ c. (f c).1),
    )

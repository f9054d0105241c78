-- ===== src/Accounts/LocalRcpt/Ends.antt =====
-- When `IsValidLocalRcpt` ends.
use tmail.Directory.{Alias}
use tmail.Text.{join, split, to_lower}
use mathlib.Core.Path.{subst}
use tmail.Prelude.{
  Bytes, ◌<◌, ◌≡◌, ◌≢◌, ◌∷◌, ◌++◌, ◌∙◌, [], ℕ, suc, zero, true, false, Bool, none, some, Option,
  List, refl, sym, inl, inr, arith, ap, Bool-cases, All,
}
use tmail.Accounts.LocalRcpt.Steps.{
  healthy, is_valid-step, by_domain-step, through_alias-some, through_alias-none, has_place,
}
use tmail.Accounts.LocalRcpt.{is_valid_local_rcpt, by_domain, through_alias}
use tmail.Text.Parts.{join-split, split-IsWhole, split-concat, split-whole, IsWhole}
use tmail.Accounts.{Tables, Db, Returned, error, still_running, Action, find_alias, is_some}

first-IsWhole : (rcpt l d : Bytes) → split rcpt (64 ∷ []) ≡ l ∷ d ∷ [] → IsWhole 64 l
first-IsWhole rcpt l d e = (subst (λ ps. All (IsWhole 64) ps) e (split-IsWhole 64 rcpt)).0

join-one : (p : Bytes) → join (p ∷ []) (64 ∷ []) ≡ p
unfolding join
join-one p = refl

-- The domain part of an address that is made of a local part and a domain.
target_domain :
    (l x l' d' : Bytes) → IsWhole 64 l → split (l ++ (64 ∷ x)) (64 ∷ []) ≡ l' ∷ d' ∷ [] → d' ≡ x
target_domain l x l' d' whole h =
    let parts : l ∷ split x (64 ∷ []) ≡ l' ∷ d' ∷ [] = sym (split-concat 64 l x whole) ∙ h in
    let one : split x (64 ∷ []) ≡ d' ∷ [] = cc in
    sym (join-one d') ∙ (ap (λ ps. join ps (64 ∷ [])) (sym one) ∙ join-split 64 x)

module _ (t : Tables) where
  abbrev Ended : Returned Bool × Db → Type 0
  Ended x = x.0 ≢ error still_running

  -- The targets of the aliases that are domains go down: no alias leads back to itself.
  abbrev pub GoesDown : (Bytes → ℕ) → Type 0
  GoesDown rank =
      (d : Bytes) (a : Alias) → find_alias d t.aliases ≡ some a → rank a.deliver_to < rank d

  by_domain-Ended :
      (again : Bytes → Action Bool) (rcpt : Bytes) (ps : List Bytes)
      → split rcpt (64 ∷ []) ≡ ps
      → ((l d : Bytes) (a : Alias)
          → split rcpt (64 ∷ []) ≡ l ∷ d ∷ []
          → find_alias d t.aliases ≡ some a
          → Ended (again (l ++ (64 ∷ a.deliver_to)) (healthy t)))
      → Ended (by_domain again ps (healthy t))
  by_domain-Ended again rcpt [] e ih = unfold by_domain in (λ h. cc)
  by_domain-Ended again rcpt (l ∷ []) e ih = unfold by_domain in (λ h. cc)
  by_domain-Ended again rcpt (l ∷ (d ∷ [])) e ih =
      elim (Bool-cases (is_some (find_alias (to_lower d) t.aliases))) [
        | inl known ↦ rw (by_domain-step again l d t, known) (go (find_alias d t.aliases) refl)
        | inr new ↦ rw (by_domain-step again l d t, new) (λ h. cc)
      ]
    where
      go :
          (o : Option Alias)
          → find_alias d t.aliases ≡ o
          → Ended (through_alias again l d (healthy t))
      go none k = rw (through_alias-none again l d t k) (λ h. cc)
      go (some a) k = rw (through_alias-some again l d t a k) (ih l d a e k)
  by_domain-Ended again rcpt (l ∷ (d ∷ (p ∷ ps))) e ih = unfold by_domain in (λ h. cc)

  -- If each alias leads to a target of a lower rank, `IsValidLocalRcpt` calls itself no more often
  -- than the rank of the recipient's domain: with fuel above that it ends. No call of the database
  -- fails.
  pub is_valid_local_rcpt_ends :
      (rank : Bytes → ℕ)
      → GoesDown rank
      → (n : ℕ) (rcpt : Bytes) → 0 < n
      → ((l d : Bytes) → split rcpt (64 ∷ []) ≡ l ∷ d ∷ [] → rank d < n)
      → (is_valid_local_rcpt n rcpt (healthy t)).0 ≢ error still_running
  is_valid_local_rcpt_ends rank down zero rcpt pos below = absurd (omega arith)
  is_valid_local_rcpt_ends rank down (suc n) rcpt pos below = elim (Bool-cases (has_place t rcpt)) [
    | inl place ↦ rw (is_valid-step n rcpt t, place) (λ h. cc)
    | inr none_here ↦
        rw (is_valid-step n rcpt t, none_here)
          (by_domain-Ended (is_valid_local_rcpt n) rcpt (split rcpt (64 ∷ [])) refl
            λ l d a parts known.
              let less = down d a known in
              let high = below l d parts in
              is_valid_local_rcpt_ends rank down n (l ++ (64 ∷ a.deliver_to)) (omega arith)
                λ l' d' parts'.
                  let whole = first-IsWhole rcpt l d parts in
                  let same = target_domain l a.deliver_to l' d' whole parts' in
                  let e : rank d' ≡ rank a.deliver_to = ap rank same in omega arith)
  ]

-- Domains that are aliases of one another, with no place for the local part `l` at any of them.
pub record AliasLoop (t : Tables) (l : Bytes) (In : Bytes → Type 0) : Type 0 where
  pub leads : (d : Bytes) → In d → (a : Alias) × (find_alias d t.aliases ≡ some a) × In a.deliver_to
  pub known : (d : Bytes) → In d → is_some (find_alias (to_lower d) t.aliases) ≡ true
  pub whole : (d : Bytes) → In d → IsWhole 64 d
  pub no_place : (d : Bytes) → In d → has_place t (l ++ (64 ∷ d)) ≡ false

-- If domains are aliases of one another in a circle, and the local part has no place of its own at
-- any of them, `IsValidLocalRcpt` does not end, however often it calls itself.
pub alias_loop_never_ends :
    (t : Tables) (l : Bytes) (In : Bytes → Type 0)
    → IsWhole 64 l
    → AliasLoop t l In
    → (n : ℕ) (d : Bytes) → In d
    → (is_valid_local_rcpt n (l ++ (64 ∷ d)) (healthy t)).0 ≡ error still_running
alias_loop_never_ends t l In w c zero d i = unfold is_valid_local_rcpt in refl
alias_loop_never_ends t l In w c (suc n) d i =
    let (a, found, inside) = c.leads d i in
    let parts : split (l ++ (64 ∷ d)) (64 ∷ []) ≡ l ∷ d ∷ [] =
      split-concat 64 l d w ∙ rw (split-whole 64 d (c.whole d i)) in
    rw
      (
        is_valid-step n (l ++ (64 ∷ d)) t,
        c.no_place d i,
        parts,
        by_domain-step (is_valid_local_rcpt n) l d t,
        c.known d i,
        through_alias-some (is_valid_local_rcpt n) l d t a found,
      )
      (alias_loop_never_ends t l In w c n a.deliver_to inside)

-- ===== src/Text/Parts.antt =====
-- The parts that `split` gives at a separator of one byte.
use tmail.Prelude.{
  false, Bytes, ◌≡◌, ◌≢◌, ◌∷◌, ◌++◌, ◌==◌, ◌∙◌, [], ℕ, List, refl, sym, inl, inr, arith, All,
  Bool-cases,
}
use tmail.Text.{has_byte, split, join, onto_first}

abbrev pub IsWhole : ℕ → Bytes → Type 0
IsWhole b = All (λ c. c ≢ b)

pub IsWhole-of : (b : ℕ) (s : Bytes) → has_byte b s ≡ false → IsWhole b s
unfolding has_byte
IsWhole-of b [] h = tt
IsWhole-of b (c ∷ s) h = ((λ e. ground arith), IsWhole-of b s (ground arith))

module _ (b : ℕ) where
  pub split-cons_at : (s : Bytes) → split (b ∷ s) (b ∷ []) ≡ [] ∷ split s (b ∷ [])
  unfolding split
  split-cons_at s = ground arith

  pub split-cons_other :
      (c : ℕ) (s : Bytes) → c ≢ b → split (c ∷ s) (b ∷ []) ≡ onto_first c (split s (b ∷ []))
  unfolding split
  split-cons_other c s h = ground arith

  join-onto_first :
      (c : ℕ) (ps : List Bytes) → join (onto_first c ps) (b ∷ []) ≡ c ∷ join ps (b ∷ [])
  unfolding join onto_first
  join-onto_first c [] = refl
  join-onto_first c (p ∷ []) = refl
  join-onto_first c (p ∷ (q ∷ ps)) = refl

  join-first_empty : (ps : List Bytes) → ps ≢ [] → join ([] ∷ ps) (b ∷ []) ≡ b ∷ join ps (b ∷ [])
  unfolding join
  join-first_empty [] h = absurd (h refl)
  join-first_empty (p ∷ ps) h = refl

  onto_first-ne-nil : (c : ℕ) (ps : List Bytes) → onto_first c ps ≢ []
  unfolding onto_first
  onto_first-ne-nil c [] h = cc
  onto_first-ne-nil c (p ∷ ps) h = cc

  onto_first-IsWhole :
      (c : ℕ) (ps : List Bytes) → c ≢ b → All (IsWhole b) ps → All (IsWhole b) (onto_first c ps)
  unfolding onto_first
  onto_first-IsWhole c [] h k = ((h, tt), tt)
  onto_first-IsWhole c (p ∷ ps) h k = ((h, k.0), k.1)

  split-ne-nil : (s : Bytes) → split s (b ∷ []) ≢ []
  split-ne-nil [] h = unfold split in (cc)
  split-ne-nil (c ∷ s) h = elim (Bool-cases (c == b)) [
    | inl same ↦ let e : c ≡ b = ground arith in cc (← h, e, split-cons_at s)
    | inr other ↦
        onto_first-ne-nil c (split s (b ∷ [])) (sym (split-cons_other c s (ground arith)) ∙ h)
  ]

  -- The parts joined again are the text.
  pub join-split : (s : Bytes) → join (split s (b ∷ [])) (b ∷ []) ≡ s
  join-split [] = unfold split join in refl
  join-split (c ∷ s) = elim (Bool-cases (c == b)) [
    | inl same ↦
        let e : c ≡ b = ground arith in
        rw (e, split-cons_at s, join-first_empty (split s (b ∷ [])) (split-ne-nil s), join-split s)
    | inr other ↦
        rw (split-cons_other c s (ground arith), join-onto_first c (split s (b ∷ [])), join-split s)
  ]

  -- No part holds the separator.
  pub split-IsWhole : (s : Bytes) → All (IsWhole b) (split s (b ∷ []))
  split-IsWhole [] = unfold split in (tt, tt)
  split-IsWhole (c ∷ s) = elim (Bool-cases (c == b)) [
    | inl same ↦ let e : c ≡ b = ground arith in rw (e, split-cons_at s) (tt, split-IsWhole s)
    | inr other ↦
        rw (split-cons_other c s (ground arith))
          (onto_first-IsWhole c (split s (b ∷ [])) (ground arith) (split-IsWhole s))
  ]

  -- A text with no separator is the first part, if one stands behind it.
  pub split-concat :
      (l s : Bytes) → IsWhole b l → split (l ++ (b ∷ s)) (b ∷ []) ≡ l ∷ split s (b ∷ [])
  split-concat [] s h = split-cons_at s
  split-concat (c ∷ l) s h =
      split-cons_other c (l ++ (b ∷ s)) h.0 ∙ rw (split-concat l s h.1) (unfold onto_first in refl)

  pub split-whole : (s : Bytes) → IsWhole b s → split s (b ∷ []) ≡ s ∷ []
  split-whole [] h = unfold split in refl
  split-whole (c ∷ s) h =
      split-cons_other c s h.0 ∙ rw (split-whole s h.1) (unfold onto_first in refl)

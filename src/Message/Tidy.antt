-- ===== src/Message/Tidy.antt =====
-- The text that `FoldHeader` breaks.
use tmail.Prelude.{
  Bytes, ◌≡◌, ◌∷◌, ◌++◌, ◌⊎◌, ◌==◌, [], ℕ, refl, inl, inr, Bool-cases, true, false, All, arith,
}
use tmail.Text.{cr, lf}
use tmail.Message.Fold.{without, reduce_blanks, is_blank, cleaned}

abbrev pub IsBlank : ℕ → Type 0
IsBlank c = (c ≡ 32) ⊎ (c ≡ 9)

abbrev pub IsBreak : ℕ → Type 0
IsBreak c = (c ≡ cr) ⊎ (c ≡ lf)

-- The text is at its end, or goes on with a byte that is no blank, no CR and no LF.
pub data Solid : Bytes → Type 0 where
  at_end : Solid []
  at_byte : {c : ℕ} {s : Bytes} → (IsBlank c ⊎ IsBreak c → ⊥) → Solid (c ∷ s)

-- The second text is the first, with each run of blanks made one space, and with the CR and LF
-- left out, which end no run.
pub data Tidy : Bytes → Bytes → Type 0 where
  nothing : Tidy [] []
  dropped : {c : ℕ} {s out : Bytes} → IsBreak c → Tidy s out → Tidy (c ∷ s) out
  kept : {c : ℕ} {s out : Bytes} → (IsBlank c ⊎ IsBreak c → ⊥) → Tidy s out → Tidy (c ∷ s) (c ∷ out)
  run :
      (b : ℕ) (gap rest : Bytes) {out : Bytes}
      → IsBlank b
      → All (λ c. IsBlank c ⊎ IsBreak c) gap
      → Solid rest
      → Tidy rest out
      → Tidy (b ∷ (gap ++ rest)) (32 ∷ out)

-- What follows a blank.
record Behind (s out : Bytes) : Type 0 where
  gap : Bytes
  rest : Bytes
  parts : s ≡ gap ++ rest
  blank : All (λ c. IsBlank c ⊎ IsBreak c) gap
  solid : Solid rest
  tidy : Tidy rest out

more_gap : (c : ℕ) (s out : Bytes) → IsBlank c ⊎ IsBreak c → Behind s out → Behind (c ∷ s) out
more_gap c s out k b = record {
  gap = c ∷ b.gap;
  rest = b.rest;
  parts = rw b.parts refl;
  blank = (k, b.blank);
  solid = b.solid;
  tidy = b.tidy;
}

run_of : (c : ℕ) (s out : Bytes) → IsBlank c → Behind s out → Tidy (c ∷ s) (32 ∷ out)
run_of c s out k b = rw b.parts (run c b.gap b.rest k b.blank b.solid b.tidy)

abbrev plain_text : Bytes → Bytes
plain_text s = without lf (without cr s)

plain_text_break : (c : ℕ) (s : Bytes) → IsBreak c → plain_text (c ∷ s) ≡ plain_text s
unfolding without
plain_text_break c s (inl e) = rw e refl
plain_text_break c s (inr e) = rw e refl

plain_text_byte :
    (c : ℕ) (s : Bytes)
    → (c == cr) ≡ false
    → (c == lf) ≡ false
    → plain_text (c ∷ s) ≡ c ∷ plain_text s
unfolding without
plain_text_byte c s n m = rw (n, m) refl

blank_test :
    (c : ℕ)
    → ((is_blank c ≡ true) × IsBlank c)
      ⊎ ((is_blank c ≡ false) × ((c == 32) ≡ false) × ((c == 9) ≡ false))
unfolding is_blank
blank_test c = ground arith

other_byte :
    (c : ℕ)
    → (c == cr) ≡ false
    → (c == lf) ≡ false
    → (c == 32) ≡ false
    → (c == 9) ≡ false
    → IsBlank c ⊎ IsBreak c
    → ⊥
other_byte c a b d e k = ground arith

abbrev Both : Bytes → Type 0
Both s = Tidy s (reduce_blanks false (plain_text s)) × Behind s (reduce_blanks true (plain_text s))

break-Both : (c : ℕ) (s : Bytes) → IsBreak c → Both s → Both (c ∷ s)
break-Both c s k (tidy, behind) =
    rw (plain_text_break c s k) (dropped k tidy, more_gap c s _ (inr k) behind)

blank-Both :
    (c : ℕ) (s : Bytes)
    → (c == cr) ≡ false
    → (c == lf) ≡ false
    → is_blank c ≡ true
    → IsBlank c
    → Both s
    → Both (c ∷ s)
unfolding reduce_blanks
blank-Both c s n m test k (tidy, behind) =
    rw (plain_text_byte c s n m, test) (run_of c s _ k behind, more_gap c s _ (inl k) behind)

byte-Both :
    (c : ℕ) (s : Bytes)
    → (c == cr) ≡ false
    → (c == lf) ≡ false
    → is_blank c ≡ false
    → (IsBlank c ⊎ IsBreak c → ⊥)
    → Both s
    → Both (c ∷ s)
unfolding reduce_blanks
byte-Both c s n m test k (tidy, behind) =
    rw (plain_text_byte c s n m, test)
      (
        kept k tidy,
        record {
          gap = [];
          rest = c ∷ s;
          parts = refl;
          blank = tt;
          solid = at_byte k;
          tidy = kept k tidy;
        },
      )

nil-Both : Both []
unfolding reduce_blanks without
nil-Both = (
  nothing,
  record { gap = []; rest = []; parts = refl; blank = tt; solid = at_end; tidy = nothing },
)

plain_text-Both : (s : Bytes) → Both s
plain_text-Both [] = nil-Both
plain_text-Both (c ∷ s) =
    let both = plain_text-Both s in
    elim (Bool-cases (c == cr)) [
      | inl is_cr ↦ break-Both c s (inl (ground arith)) both
      | inr no_cr ↦ elim (Bool-cases (c == lf)) [
        | inl is_lf ↦ break-Both c s (inr (ground arith)) both
        | inr no_lf ↦ elim (blank_test c) [
          | inl (test, k) ↦ blank-Both c s no_cr no_lf test k both
          | inr (test, no_space, no_tab) ↦
              byte-Both c s no_cr no_lf test (other_byte c no_cr no_lf no_space no_tab) both
        ]
      ]
    ]

pub cleaned-Tidy : (s : Bytes) → Tidy s (cleaned s)
unfolding cleaned
cleaned-Tidy s = (plain_text-Both s).0

-- ===== src/Accounts/Rows.antt =====
-- Lists of rows with a key: lookup, insertion and deletion.
use tmail.Prelude.{
  Bytes, ◌≡◌, ◌≢◌, ◌∷◌, ◌++◌, [], Bool-cases, none, some, List, All, All-append, eq_bytes,
  eq_bytes_iff, inl, inr, sym, ◌∙◌, arith, refl, eq_bytes_refl,
}
use tmail.Accounts.{first_with, without_key}

-- Each row is related to every row behind it.
module _ {A : Type 0} (R : A → A → Type 0) where
  abbrev pub Apart : List A → Type 0
  Apart [] = Unit
  Apart (x ∷ xs) = All (R x) xs × Apart xs

  pub Apart-snoc : (xs : List A) (y : A) → Apart xs → All (λ x. R x y) xs → Apart (xs ++ y ∷ [])
  Apart-snoc [] y h k = (tt, tt)
  Apart-snoc (x ∷ xs) y (first, rest) (k, ks) =
      (All-append (R x) xs (y ∷ []) first (k, tt), Apart-snoc xs y rest ks)

pub All-map :
    {A : Type 0} {P Q : A → Type 0} (xs : List A) → ((x : A) → P x → Q x) → All P xs → All Q xs
All-map [] f h = tt
All-map (x ∷ xs) f (p, ps) = (f x p, All-map xs f ps)

module _ {A : Type 0} (key : A → Bytes) where
  pub first_with-none :
      (k : Bytes) (xs : List A) → first_with key k xs ≡ none → All (λ x. key x ≢ k) xs
  unfolding first_with
  first_with-none k [] h = tt
  first_with-none k (x ∷ xs) h = elim (Bool-cases (eq_bytes (key x) k)) [
    | inl same ↦ cc (rw same at h)
    | inr other ↦ (
      λ e. let same = (eq_bytes_iff (key x) k).1 e in cc (← other, ← same),
      first_with-none k xs (rw other at h),
    )
  ]

  pub first_with-last :
      (xs : List A) (a : A)
      → first_with key (key a) xs ≡ none
      → first_with key (key a) (xs ++ a ∷ []) ≡ some a
  unfolding first_with
  first_with-last [] a h = rw (eq_bytes_refl (key a)) refl
  first_with-last (x ∷ xs) a h = elim (Bool-cases (eq_bytes (key x) (key a))) [
    | inl same ↦ cc (rw same at h)
    | inr other ↦ rw other (first_with-last xs a (rw other at h))
  ]

  pub first_with-key : (k : Bytes) (xs : List A) (a : A) → first_with key k xs ≡ some a → key a ≡ k
  unfolding first_with
  first_with-key k [] a h = cc (← h)
  first_with-key k (x ∷ xs) a h = elim (Bool-cases (eq_bytes (key x) k)) [
    | inl same ↦
        let e : x ≡ a = ground (arith, rw same at h) in rw (← e) ((eq_bytes_iff (key x) k).0 same)
    | inr other ↦ first_with-key k xs a (rw other at h)
  ]

  pub first_with-All :
      (P : A → Type 0) (k : Bytes) (xs : List A) (a : A)
      → All P xs
      → first_with key k xs ≡ some a
      → P a
  unfolding first_with
  first_with-All P k [] a all h = cc (← h)
  first_with-All P k (x ∷ xs) a (p, ps) h = elim (Bool-cases (eq_bytes (key x) k)) [
    | inl same ↦ let e : x ≡ a = ground (arith, rw same at h) in rw (← e) p
    | inr other ↦ first_with-All P k xs a ps (rw other at h)
  ]

  -- Where the keys are unique, the row that is found is the only one with its key.
  pub first_with-only :
      (R : A → A → Type 0)
      → ((x y : A) → R x y → key x ≢ key y)
      → (k : Bytes) (xs : List A) (a : A) → Apart R xs
      → first_with key k xs ≡ some a
      → All (λ x. key x ≡ k → x ≡ a) xs
  unfolding first_with
  first_with-only R differ k [] a apart h = tt
  first_with-only R differ k (x ∷ xs) a (first, apart) h = elim (Bool-cases (eq_bytes (key x) k)) [
    | inl same ↦
        let e : x ≡ a = ground (arith, rw same at h) in
        let is_k = (eq_bytes_iff (key x) k).0 same in
        (λ _. e, All-map xs (λ y r at_k. absurd (differ x y r (is_k ∙ sym at_k))) first)
    | inr other ↦ (
      λ e. let same = (eq_bytes_iff (key x) k).1 e in cc (← other, ← same),
      first_with-only R differ k xs a apart (rw other at h),
    )
  ]

  pub without_key-All :
      (P : A → Type 0) (k : Bytes) (xs : List A) → All P xs → All P (without_key key k xs)
  unfolding without_key
  without_key-All P k [] h = tt
  without_key-All P k (x ∷ xs) (p, ps) = elim (Bool-cases (eq_bytes (key x) k)) [
    | inl same ↦ rw same (without_key-All P k xs ps)
    | inr other ↦ rw other (p, without_key-All P k xs ps)
  ]

  pub without_key-Apart :
      (R : A → A → Type 0) (k : Bytes) (xs : List A) → Apart R xs → Apart R (without_key key k xs)
  unfolding without_key
  without_key-Apart R k [] h = tt
  without_key-Apart R k (x ∷ xs) (first, rest) = elim (Bool-cases (eq_bytes (key x) k)) [
    | inl same ↦ rw same (without_key-Apart R k xs rest)
    | inr other ↦ rw other (without_key-All (R x) k xs first, without_key-Apart R k xs rest)
  ]

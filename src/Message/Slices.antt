-- ===== src/Message/Slices.antt =====
-- A text in pieces, and the pieces joined by line breaks.
use tmail.Prelude.{
  Bytes, ◌-◌, ◌≤◌, ◌≡◌, ◌∷◌, ◌++◌, [], ℕ, suc, zero, List, refl, ap, arith, length, append-nil,
  append_assoc,
}
use tmail.Text.{take, drop}
use tmail.Message.Fold.{after_mark}

-- Pieces of text, each behind a line break and two spaces once there is something in front.
unfoldable pub behind_text : Bytes → Bytes → Bytes
behind_text [] p = p
behind_text (c ∷ h) p = (c ∷ h) ++ (13 ∷ 10 ∷ 32 ∷ 32 ∷ p)

unfoldable pub joined : Bytes → List Bytes → Bytes
joined h [] = h
joined h (p ∷ ps) = joined (behind_text h p) ps

unfoldable pub flat : List Bytes → Bytes
flat [] = []
flat (p ∷ ps) = p ++ flat ps

-- The text from `start`, cut at each of the positions.
unfoldable pub pieces_of : Bytes → ℕ → List ℕ → List Bytes
pieces_of text start [] = drop start text ∷ []
pieces_of text start (p ∷ ps) = take (p - start) (drop start text) ∷ pieces_of text p ps

-- The same without what stands behind the last position.
unfoldable pub slices : Bytes → ℕ → List ℕ → List Bytes
slices text start [] = []
slices text start (p ∷ ps) = take (p - start) (drop start text) ∷ slices text p ps

unfoldable pub last_of : ℕ → List ℕ → ℕ
last_of start [] = start
last_of start (p ∷ ps) = last_of p ps

pub pieces_of-slices :
    (text : Bytes) (start : ℕ) (ps : List ℕ)
    → pieces_of text start ps ≡ slices text start ps ++ drop (last_of start ps) text ∷ []
unfolding pieces_of slices last_of
pieces_of-slices text start [] = refl
pieces_of-slices text start (p ∷ ps) =
    ap (λ x. take (p - start) (drop start text) ∷ x) (pieces_of-slices text p ps)

pub slices-concat :
    (text : Bytes) (start p : ℕ) (ps : List ℕ)
    → slices text start (ps ++ p ∷ [])
      ≡ slices text start ps ++ take (p - last_of start ps) (drop (last_of start ps) text) ∷ []
unfolding slices last_of
slices-concat text start p [] = refl
slices-concat text start p (q ∷ ps) =
    ap (λ x. take (q - start) (drop start text) ∷ x) (slices-concat text q p ps)

pub last_of-concat : (start p : ℕ) (ps : List ℕ) → last_of start (ps ++ p ∷ []) ≡ p
unfolding last_of
last_of-concat start p [] = refl
last_of-concat start p (q ∷ ps) = last_of-concat q p ps

pub after_mark-behind : (h p : Bytes) → after_mark h p ≡ behind_text h p
unfolding after_mark behind_text
after_mark-behind [] p = refl
after_mark-behind (c ∷ h) p = refl

pub joined-concat :
    (h p : Bytes) (ps : List Bytes) → joined h (ps ++ p ∷ []) ≡ behind_text (joined h ps) p
unfolding joined
joined-concat h p [] = refl
joined-concat h p (q ∷ ps) = joined-concat (behind_text h q) p ps

pub flat-concat : (p : Bytes) (ps : List Bytes) → flat (ps ++ p ∷ []) ≡ flat ps ++ p
unfolding flat
flat-concat p [] = append-nil p
flat-concat p (q ∷ ps) = rw (flat-concat p ps, append_assoc)

pub take-drop : (n : ℕ) (s : Bytes) → take n s ++ drop n s ≡ s
unfolding take drop
take-drop n [] = refl
take-drop zero (c ∷ s) = refl
take-drop (suc n) (c ∷ s) = ap (λ x. c ∷ x) (take-drop n s)

take-all : (n : ℕ) (s : Bytes) → length s ≤ n → take n s ≡ s
unfolding take
take-all n [] h = refl
take-all zero (c ∷ s) h = absurd (omega arith)
take-all (suc n) (c ∷ s) h = ap (λ x. c ∷ x) (take-all n s (omega arith))

drop-all : (n : ℕ) (s : Bytes) → length s ≤ n → drop n s ≡ []
unfolding drop
drop-all n [] h = refl
drop-all zero (c ∷ s) h = absurd (omega arith)
drop-all (suc n) (c ∷ s) h = drop-all n s (omega arith)

pub take-split : (a b : ℕ) (s : Bytes) → a ≤ b → take a s ++ take (b - a) (drop a s) ≡ take b s
unfolding take drop
take-split a b [] h = refl
take-split zero b (c ∷ s) h = let e : b - 0 ≡ b = omega arith in rw e refl
take-split (suc a) zero (c ∷ s) h = absurd (omega arith)
take-split (suc a) (suc b) (c ∷ s) h =
    let e : suc b - suc a ≡ b - a = omega arith in
    rw e (ap (λ x. c ∷ x) (take-split a b s (omega arith)))

pub drop-zero : (s : Bytes) → drop 0 s ≡ s
unfolding drop
drop-zero [] = refl
drop-zero (c ∷ s) = refl

pub take-zero : (s : Bytes) → take 0 s ≡ []
unfolding take
take-zero [] = refl
take-zero (c ∷ s) = refl

-- ===== src/Message/Cuts.antt =====
-- Where `FoldHeader` cuts.
use tmail.Message.Fold.{Folding, note_space}
use tmail.Prelude.{
  Bytes, ◌+◌, ◌*◌, ◌≤◌, ◌<◌, ◌≡◌, ◌∷◌, ◌++◌, ◌==◌, ◌⊎◌, [], ℕ, List, refl, inl, inr, arith, length,
  append_assoc, length-append, false, if◌then◌else◌, Bool-cases,
}

unfoldable pub spaces : Bytes → ℕ
spaces [] = 0
spaces (c ∷ s) = let rest = spaces s in if c == 32 then rest + 1 else rest

-- `p` is where the last space stands, the first one of the text not counting, and 0 without one.
abbrev pub LastSpace : Bytes → ℕ → Type 0
LastSpace text p =
    ((spaces text ≤ 1) × (p ≡ 0))
    ⊎ ((before : Bytes) × (after : Bytes) × (text ≡ before ++ 32 ∷ after)
        × (spaces after ≡ 0)
        × (1 ≤ spaces before)
        × (p ≡ length before))

-- The cut of number `k`, from 1, is at the last space of the first `78 * k` bytes.
abbrev pub IsCut : Bytes → ℕ → ℕ → Type 0
IsCut text k p =
    (front : Bytes) × (back : Bytes) × (text ≡ front ++ back)
    × (length front ≡ 78 * k)
    × LastSpace front p

abbrev pub Placed : Bytes → ℕ → List ℕ → Type 0
Placed text k [] = Unit
Placed text k (p ∷ ps) = IsCut text k p × Placed text (k + 1) ps

Placed-concat :
    (text : Bytes) (k : ℕ) (ps : List ℕ) (p : ℕ)
    → Placed text k ps
    → IsCut text (k + length ps) p
    → Placed text k (ps ++ p ∷ [])
Placed-concat text k [] p h (front, back, whole, size, last) =
    ((front, back, whole, omega arith, last), tt)
Placed-concat text k (q ∷ ps) p (at_q, h) (front, back, whole, size, last) =
    (at_q, Placed-concat text (k + 1) ps p h (front, back, whole, omega arith, last))

spaces-append : (a b : Bytes) → spaces (a ++ b) ≡ spaces a + spaces b
unfolding spaces
spaces-append [] b = omega arith
spaces-append (c ∷ a) b = ground (arith, spaces-append a b)

spaces_none : spaces [] ≡ 0
unfolding spaces
spaces_none = refl

spaces_space : (s : Bytes) → spaces (32 ∷ s) ≡ spaces s + 1
unfolding spaces
spaces_space s = refl

spaces_byte : (c : ℕ) → (c == 32) ≡ false → spaces (c ∷ []) ≡ 0
unfolding spaces
spaces_byte c h = rw h refl

pub LastSpace-lt : (text : Bytes) (p : ℕ) → LastSpace text p → 0 < length text → p < length text
LastSpace-lt text p (inl (few, zero_p)) h = omega arith
LastSpace-lt text p (inr (before, after, parts, none_after, some_before, at_p)) h =
    let size : length text ≡ length before + length (32 ∷ after) =
      rw parts (length-append before (32 ∷ after)) in
    let more : length (32 ∷ after) ≡ length after + 1 = omega arith in omega arith

byte-LastSpace :
    (text : Bytes) (c p : ℕ) → (c == 32) ≡ false → LastSpace text p → LastSpace (text ++ c ∷ []) p
byte-LastSpace text c p h (inl (few, zero_p)) =
    inl (omega (arith, spaces-append text (c ∷ []), spaces_byte c h), zero_p)
byte-LastSpace text c p h (inr (before, after, parts, none_after, some_before, at_p)) = inr (
  before,
  after ++ c ∷ [],
  rw parts (append_assoc before (32 ∷ after) (c ∷ [])),
  omega (arith, spaces-append after (c ∷ []), spaces_byte c h),
  some_before,
  at_p,
)

first-LastSpace :
    (text : Bytes) (p : ℕ) → spaces text ≡ 0 → LastSpace text p → LastSpace (text ++ 32 ∷ []) p
first-LastSpace text p h (inl (few, zero_p)) =
    inl (omega (arith, spaces-append text (32 ∷ []), spaces_space [], spaces_none), zero_p)
first-LastSpace text p h (inr (before, after, parts, none_after, some_before, at_p)) =
    let all : spaces text ≡ spaces before + spaces (32 ∷ after) =
      rw parts (spaces-append before (32 ∷ after)) in
    absurd (omega arith)

next-LastSpace : (text : Bytes) → 1 ≤ spaces text → LastSpace (text ++ 32 ∷ []) (length text)
next-LastSpace text h = inr (text, [], refl, spaces_none, h, refl)

-- The variables of the loop behind the bytes `front` of the text, with the cuts made so far.
pub record Marks (text front : Bytes) (f : Folding) (cuts : List ℕ) : Type 0 where
  pub counted : f.header_length + 78 * length cuts ≡ length front
  pub capped : f.header_length ≤ 78
  pub seen : f.spaces_seen ≡ spaces front
  pub last : LastSpace front f.last_space
  pub placed : Placed text 1 cuts

space-LastSpace :
    (front : Bytes) (f : Folding)
    → f.spaces_seen ≡ spaces front
    → LastSpace front f.last_space
    → LastSpace (front ++ 32 ∷ []) (if f.spaces_seen == 0 then f.last_space else length front)
space-LastSpace front f seen last = elim (Bool-cases (f.spaces_seen == 0)) [
  | inl first ↦ rw first (first-LastSpace front f.last_space (ground arith) last)
  | inr later ↦ rw later (next-LastSpace front (ground arith))
]

pub note_space-Marks :
    (text front : Bytes) (c : ℕ) (f : Folding) (cuts : List ℕ)
    → f.header_length ≤ 77
    → Marks text front f cuts
    → Marks text
        (front ++ c ∷ [])
        (note_space (length front) c (record f { header_length = f.header_length + 1 }))
        cuts
unfolding note_space
note_space-Marks text front c f cuts short k =
    let longer = length-append front (c ∷ []) in
    elim (Bool-cases (c == 32)) [
      | inl space ↦
          let same : c ≡ 32 = ground arith in
          rw same (record {
            counted = omega (arith, k.counted, length-append front (32 ∷ []));
            capped = omega arith;
            seen =
                omega (arith, k.seen, spaces-append front (32 ∷ []), spaces_space [], spaces_none);
            last = space-LastSpace front f k.seen k.last;
            placed = k.placed;
          })
      | inr other ↦ rw other (record {
        counted = omega (arith, k.counted, longer);
        capped = omega arith;
        seen = omega (arith, k.seen, spaces-append front (c ∷ []), spaces_byte c other);
        last = byte-LastSpace front c f.last_space other k.last;
        placed = k.placed;
      })
    ]

pub cut-Marks :
    (text front back header : Bytes) (f : Folding) (cuts : List ℕ)
    → text ≡ front ++ back
    → 77 < f.header_length
    → Marks text front f cuts
    → Marks text front
        (record f { header = header; last_cut = f.last_space; header_length = 0 })
        (cuts ++ f.last_space ∷ [])
cut-Marks text front back header f cuts whole long k = record {
  counted = omega (arith, k.counted, k.capped, length-append cuts (f.last_space ∷ []));
  capped = omega arith;
  seen = k.seen;
  last = k.last;
  placed =
      Placed-concat text 1 cuts f.last_space k.placed
        (front, back, whole, omega (arith, k.counted, k.capped), k.last);
}

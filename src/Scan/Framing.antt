-- ===== src/Scan/Framing.antt =====
-- What the scanner reads.
use mathlib.Core.Path.{subst}
use tmail.Scan.{scan_request}
use tmail.Prelude.{
  Bytes, ◌≡◌, ◌≤◌, ◌∷◌, ◌++◌, ◌==◌, ◌+◌, ◌-◌, ◌*◌, if◌then◌else◌, [], ℕ, zero, suc, none, some,
  Option, length, refl, arith, ap, ◌<◌, ◌∙◌, inl, inr, ltb, Bool-cases, length-append, sym,
  append-nil, append_assoc, ltb→lt, ltb-false→le,
}
use tmail.Text.{take, drop}
use tmail.Scan.{zeros, in_buf, size_bytes, chunks, chunk_size}

-- INSTREAM of clamd: a length in four bytes and as many bytes of data, again and again, up to a
-- length of zero.
unfoldable pub add_data : Bytes → Option Bytes → Option Bytes
add_data s none = none
add_data s (some rest) = some (s ++ rest)

unfoldable pub received : ℕ → Bytes → Option Bytes
received (suc fuel) (a ∷ (b ∷ (c ∷ (d ∷ s)))) =
    let n = ((a * 256 + b) * 256 + c) * 256 + d in
    let rest = received fuel (drop n s) in if n == 0 then some [] else add_data (take n s) rest
received _ _ = none

take_none : (s : Bytes) → take 0 s ≡ []
unfolding take
take_none [] = refl
take_none (x ∷ s) = refl

drop_none : (s : Bytes) → drop 0 s ≡ s
unfolding drop
drop_none [] = refl
drop_none (x ∷ s) = refl

take-front : (n : ℕ) (xs ys : Bytes) → length xs ≡ n → take n (xs ++ ys) ≡ xs
unfolding take
take-front zero [] ys h = take_none ys
take-front (suc n) [] ys h = absurd (omega (arith, h))
take-front zero (x ∷ xs) ys h = absurd (omega (arith, h))
take-front (suc n) (x ∷ xs) ys h = ap (λ t. x ∷ t) (take-front n xs ys (omega (arith, h)))

drop-front : (n : ℕ) (xs ys : Bytes) → length xs ≡ n → drop n (xs ++ ys) ≡ ys
unfolding drop
drop-front zero [] ys h = drop_none ys
drop-front (suc n) [] ys h = absurd (omega (arith, h))
drop-front zero (x ∷ xs) ys h = absurd (omega (arith, h))
drop-front (suc n) (x ∷ xs) ys h = drop-front n xs ys (omega (arith, h))

take_all : (n : ℕ) (s : Bytes) → length s ≤ n → take n s ≡ s
unfolding take
take_all n [] h = refl
take_all zero (x ∷ s) h = absurd (omega arith)
take_all (suc n) (x ∷ s) h = ap (λ t. x ∷ t) (take_all n s (omega arith))

drop_all : (n : ℕ) (s : Bytes) → length s ≤ n → drop n s ≡ []
unfolding drop
drop_all n [] h = refl
drop_all zero (x ∷ s) h = absurd (omega arith)
drop_all (suc n) (x ∷ s) h = drop_all n s (omega arith)

length-take : (n : ℕ) (s : Bytes) → n ≤ length s → length (take n s) ≡ n
unfolding take
length-take zero [] h = refl
length-take zero (x ∷ s) h = refl
length-take (suc n) [] h = absurd (omega arith)
length-take (suc n) (x ∷ s) h = omega (arith, length-take n s (omega arith))

length-drop : (n : ℕ) (s : Bytes) → length (drop n s) ≡ length s - n
unfolding drop
length-drop n [] = omega arith
length-drop zero (x ∷ s) = omega arith
length-drop (suc n) (x ∷ s) = omega (arith, length-drop n s)

take-drop : (n : ℕ) (s : Bytes) → take n s ++ drop n s ≡ s
unfolding take drop
take-drop n [] = refl
take-drop zero (x ∷ s) = refl
take-drop (suc n) (x ∷ s) = ap (λ t. x ∷ t) (take-drop n s)

length-zeros : (n : ℕ) → length (zeros n) ≡ n
unfolding zeros
length-zeros zero = refl
length-zeros (suc n) = omega (arith, length-zeros n)

padded :
    (t : Bytes) → length t ≤ chunk_size → length (t ++ zeros (chunk_size - length t)) ≡ chunk_size
padded t h =
    omega
      (arith, length-append t (zeros (chunk_size - length t)), length-zeros (chunk_size - length t))

length-in_buf : (s : Bytes) → length (in_buf s) ≡ chunk_size
unfolding in_buf
length-in_buf s = elim (Bool-cases (ltb (length s) chunk_size)) [
  | inl short ↦
      let less = ltb→lt (length s) chunk_size short in
      rw (take_all chunk_size s (omega arith)) (padded s (omega arith))
  | inr long ↦
      let more = ltb-false→le (length s) chunk_size long in
      padded (take chunk_size s) (omega (arith, length-take chunk_size s more))
]

frame-received :
    (fuel : ℕ) (buf rest : Bytes)
    → length buf ≡ chunk_size
    → received (suc fuel) (size_bytes chunk_size ++ (buf ++ rest))
      ≡ add_data buf (received fuel rest)
unfolding received size_bytes
frame-received fuel buf rest h =
    rw (take-front chunk_size buf rest h, drop-front chunk_size buf rest h) refl

-- the last chunk
in_buf-short : (s : Bytes) → length s ≤ chunk_size → in_buf s ≡ s ++ zeros (chunk_size - length s)
unfolding in_buf
in_buf-short s h = rw (take_all chunk_size s h) refl

-- a chunk before the last one
in_buf-long : (s : Bytes) → chunk_size ≤ length s → in_buf s ≡ take chunk_size s
unfolding in_buf
in_buf-long s h = rw (length-take chunk_size s h) (unfold zeros in (append-nil (take chunk_size s)))

Reads : ℕ → Bytes → Bytes → Type 0
Reads fuel stream s = (k : ℕ) × (k < chunk_size) × (received fuel stream ≡ some (s ++ zeros k))

last-Reads :
    (fuel : ℕ) (s : Bytes)
    → 0 < length s
    → length s ≤ chunk_size
    → Reads (suc (suc fuel)) (size_bytes chunk_size ++ (in_buf s ++ zeros 4)) s
unfolding Reads
last-Reads fuel s some_byte h = (
  chunk_size - length s,
  omega arith,
  frame-received (suc fuel) (in_buf s) (zeros 4) (length-in_buf s)
      ∙ (unfold received zeros add_data in
          (ap some (append-nil (in_buf s))) ∙ ap some (in_buf-short s h)),
)

next-Reads :
    (fuel : ℕ) (s stream : Bytes)
    → chunk_size ≤ length s
    → Reads fuel stream (drop chunk_size s)
    → Reads (suc fuel) (size_bytes chunk_size ++ (in_buf s ++ stream)) s
unfolding Reads add_data
next-Reads fuel s stream h (k, less, e) = (
  k,
  less,
  frame-received fuel (in_buf s) stream (length-in_buf s)
      ∙ rw (e, in_buf-long s h)
          (ap some (
            sym (append_assoc (take chunk_size s) (drop chunk_size s) (zeros k))
            ∙ ap (λ t. t ++ zeros k) (take-drop chunk_size s))),
)

assoc_four : (a b c d : Bytes) → (a ++ (b ++ c)) ++ d ≡ a ++ (b ++ (c ++ d))
assoc_four a b c d = append_assoc a (b ++ c) d ∙ ap (λ t. a ++ t) (append_assoc b c d)

empty_stream : (fuel : ℕ) → Reads (suc fuel) ([] ++ zeros 4) []
unfolding Reads received zeros
empty_stream fuel = (0, omega arith, refl)

chunks-Reads :
    (fuel : ℕ) (s : Bytes) → length s ≤ fuel → Reads (suc fuel) (chunks fuel s ++ zeros 4) s
unfolding chunks
chunks-Reads fuel [] h = empty_stream fuel
chunks-Reads zero (c ∷ s) h = absurd (omega arith)
chunks-Reads (suc fuel) (c ∷ s) h =
    subst (λ t. Reads (suc (suc fuel)) t (c ∷ s))
      (sym (
        assoc_four (size_bytes chunk_size) (in_buf (c ∷ s)) (chunks fuel (drop chunk_size (c ∷ s)))
          (zeros 4)))
      (go (
        chunks-Reads fuel (drop chunk_size (c ∷ s))
          (omega (arith, length-drop chunk_size (c ∷ s)))))
  where
    go :
        Reads
          (suc fuel)
          (chunks fuel (drop chunk_size (c ∷ s)) ++ zeros 4)
          (drop chunk_size (c ∷ s))
        → Reads
            (suc (suc fuel))
            (size_bytes chunk_size
              ++ (in_buf (c ∷ s) ++ (chunks fuel (drop chunk_size (c ∷ s)) ++ zeros 4)))
            (c ∷ s)
    go later = elim (Bool-cases (ltb (length (c ∷ s)) chunk_size)) [
      | inl short ↦
          let less = ltb→lt (length (c ∷ s)) chunk_size short in
          rw (drop_all chunk_size (c ∷ s) (omega arith))
            (last-Reads fuel (c ∷ s) (omega arith) (omega arith))
      | inr long ↦
          next-Reads (suc fuel) (c ∷ s) _ (ltb-false→le (length (c ∷ s)) chunk_size long) later
    ]

-- What the scanner reads behind the command, by the rules of INSTREAM, is the message with fewer
-- than 1024 zeros behind it.
pub scan_request-received :
    (raw : Bytes)
    → (k : ℕ) × (k < chunk_size)
      × (received (suc (length raw)) (drop 10 (scan_request raw)) ≡ some (raw ++ zeros k))
unfolding scan_request drop
scan_request-received raw =
    let stream = chunks (length raw) raw ++ zeros 4 in
    unfold Reads in
    (subst (λ t. Reads (suc (length raw)) t raw) (sym (drop_none stream))
      (chunks-Reads (length raw) raw (omega arith)))

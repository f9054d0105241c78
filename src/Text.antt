-- ===== src/Text.antt =====
-- Go's `strings` and `bytes` functions that the source calls, on byte strings, and core/utils.go.
-- Case and white space are those of ASCII: other bytes are never changed by `to_lower`.
pub mod Utils
pub mod Base64
pub mod Number
pub mod LineEnds
pub mod Parts
use mathlib.Core.List.{reverse}
use tmail.Prelude.{
  ℕ, zero, suc, ◌+◌, ◌-◌, Bool, true, false, ◌&&◌, ◌||◌, List, [], ◌∷◌, ◌++◌, map, leb, ◌==◌,
  if◌then◌else◌, Bytes, length,
}

abbrev pub cr : ℕ
cr = 13

abbrev pub lf : ℕ
lf = 10

abbrev pub crlf : Bytes
crlf = cr ∷ lf ∷ []

unfoldable pub lower_byte : ℕ → ℕ
lower_byte c = if leb b'A' c && leb c b'Z' then c + 32 else c

-- `strings.ToLower`, `bytes.ToLower`
unfoldable pub to_lower : Bytes → Bytes
unfolding lower_byte
to_lower s = map lower_byte s

-- `strings.HasPrefix(s, p)`
unfoldable pub has_prefix : Bytes → Bytes → Bool
has_prefix s [] = true
has_prefix [] (x ∷ p) = false
has_prefix (c ∷ s) (x ∷ p) = c == x && has_prefix s p

-- `strings.HasSuffix(s, p)`
unfoldable pub has_suffix : Bytes → Bytes → Bool
unfolding has_prefix
has_suffix s p = has_prefix (reverse s) (reverse p)

-- the first part of a split grows by one byte
unfoldable pub onto_first : ℕ → List Bytes → List Bytes
onto_first c [] = (c ∷ []) ∷ []
onto_first c (p ∷ ps) = (c ∷ p) ∷ ps

-- `skip` bytes of a separator that was met are still to be passed over
unfoldable pub split_from : Bytes → ℕ → Bytes → List Bytes
unfolding has_prefix onto_first
split_from sep skip [] = [] ∷ []
split_from sep (suc k) (c ∷ s) = split_from sep k s
split_from sep zero (c ∷ s) =
    let apart = [] ∷ split_from sep (length sep - 1) s in
    let on = onto_first c (split_from sep 0 s) in if has_prefix (c ∷ s) sep then apart else on

-- `strings.Split(s, sep)`, `bytes.Split(s, sep)` at a separator that is not empty
unfoldable pub split : Bytes → Bytes → List Bytes
unfolding split_from
split s sep = split_from sep 0 s

-- `strings.Join`
unfoldable pub join : List Bytes → Bytes → Bytes
join [] sep = []
join (p ∷ []) sep = p
join (p ∷ (q ∷ ps)) sep = p ++ (sep ++ join (q ∷ ps) sep)

-- `strings.SplitN(s, c, 2)` at a one-byte separator: what stands before it, and behind it if it
-- occurs
unfoldable pub split_at_byte : ℕ → Bytes → List Bytes
unfolding onto_first
split_at_byte b [] = [] ∷ []
split_at_byte b (c ∷ s) =
    let on = onto_first c (split_at_byte b s) in if c == b then [] ∷ s ∷ [] else on

unfoldable pub is_space : ℕ → Bool
is_space c = c == 32 || leb 9 c && leb c 13

unfoldable pub trim_left : Bytes → Bytes
unfolding is_space
trim_left [] = []
trim_left (c ∷ s) = let rest = trim_left s in if is_space c then rest else c ∷ s

-- `strings.TrimSpace`
unfoldable pub trim_space : Bytes → Bytes
unfolding trim_left
trim_space s = reverse (trim_left (reverse (trim_left s)))

-- whether `strings.Count` finds a byte
unfoldable pub has_byte : ℕ → Bytes → Bool
has_byte b [] = false
has_byte b (c ∷ s) = c == b || has_byte b s

-- Go's `s[n]` on a list of parts, where the index is known to be in range
unfoldable pub part : ℕ → List Bytes → Bytes
part n [] = []
part zero (p ∷ ps) = p
part (suc n) (p ∷ ps) = part n ps

unfoldable pub last_part : List Bytes → Bytes
last_part [] = []
last_part (p ∷ []) = p
last_part (p ∷ (q ∷ ps)) = last_part (q ∷ ps)

-- `s[n:]` on a list
unfoldable pub drop {ℓ} : {A : Type ℓ} → ℕ → List A → List A
drop n [] = []
drop zero (p ∷ ps) = p ∷ ps
drop (suc n) (p ∷ ps) = drop n ps

-- `s[:n]` on a list
unfoldable pub take {ℓ} : {A : Type ℓ} → ℕ → List A → List A
take n [] = []
take zero (p ∷ ps) = []
take (suc n) (p ∷ ps) = p ∷ take n ps

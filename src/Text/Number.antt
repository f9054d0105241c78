-- ===== src/Text/Number.antt =====
-- `strconv.ParseInt(s, 10, 64)`.
use tmail.Prelude.{
  ℕ, zero, suc, ◌+◌, ◌-◌, ◌*◌, ◌^◌, Bool, true, false, ◌&&◌, Option, none, some, [], ◌∷◌, ltb, leb,
  ◌==◌, if◌then◌else◌, Bytes,
}

-- `negsuc n` is -(n + 1).
pub data ℤ : Type 0 where
  pos : ℕ → ℤ
  negsuc : ℕ → ℤ

unfoldable pub scan_digits : ℕ → Bytes → Option ℕ
scan_digits n [] = some n
scan_digits n (c ∷ s) =
    let rest = scan_digits (n * 10 + (c - b'0')) s in
    if leb b'0' c && leb c b'9' then rest else none

-- at least one digit
unfoldable pub magnitude : Bytes → Option ℕ
unfolding scan_digits
magnitude [] = none
magnitude (c ∷ s) = scan_digits 0 (c ∷ s)

unfoldable pub negated : ℕ → ℤ
negated zero = pos 0
negated (suc n) = negsuc n

unfoldable pub signed : Bool → Option ℕ → Option ℤ
unfolding negated
signed minus none = none
signed false (some n) = if ltb n (2 ^ 63) then some (pos n) else none
signed true (some n) = if leb n (2 ^ 63) then some (negated n) else none

unfoldable pub parse_int : Bytes → Option ℤ
unfolding magnitude signed
parse_int [] = none
parse_int (c ∷ s) =
    if c == b'-'
    then signed true (magnitude s)
    else if c == b'+'
    then signed false (magnitude s)
    else signed false (magnitude (c ∷ s))

-- Go's `int(size) > max` for a maximum that is not negative
unfoldable pub exceeds : ℤ → ℕ → Bool
exceeds (pos n) m = ltb m n
exceeds (negsuc n) m = false

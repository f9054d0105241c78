-- ===== src/Text/Base64.antt =====
-- `base64.StdEncoding.DecodeString`: line ends are passed over, padding is required, and the bits
-- left over in the last byte are not looked at.
use tmail.Prelude.{
  ◌+◌, ◌-◌, ◌*◌, ◌/◌, ◌%◌, ◌&&◌, ◌||◌, ◌∷◌, ◌++◌, ◌==◌, if◌then◌else◌, [], ℕ, none, some, Option,
  leb, Bytes,
}
use tmail.Text.{cr, lf}

unfoldable pub sextet : ℕ → Option ℕ
sextet c =
    if leb b'A' c && leb c b'Z'
    then some (c - 65)
    else if leb b'a' c && leb c b'z'
    then some (c - 71)
    else if leb b'0' c && leb c b'9'
    then some (c + 4)
    else if c == b'+'
    then some 62
    else if c == b'/'
    then some 63
    else none

infixl 5 ◌>>=◌
abbrev ◌>>=◌ {ℓ κ} : {A : Type ℓ} {B : Type κ} → Option A → (A → Option B) → Option B
none >>= f = none
some a >>= f = f a

abbrev pad : ℕ
pad = 61

unfoldable pub last_quantum : ℕ → ℕ → ℕ → ℕ → Option Bytes
unfolding sextet
last_quantum a b c d = do
  x ← sextet a
  y ← sextet b
  if c == pad
      then (if d == pad then some ((x * 4 + y / 16) ∷ []) else none)
      else do z ← sextet c; some ((x * 4 + y / 16) ∷ (y % 16 * 16 + z / 4) ∷ [])

unfoldable pub quantum : ℕ → ℕ → ℕ → ℕ → Option Bytes
unfolding sextet
quantum a b c d = do
  x ← sextet a
  y ← sextet b
  z ← sextet c
  w ← sextet d
  some ((x * 4 + y / 16) ∷ (y % 16 * 16 + z / 4) ∷ (z % 4 * 64 + w) ∷ [])

unfoldable pub quanta : Bytes → Option Bytes
unfolding last_quantum quantum
quanta [] = some []
quanta (a ∷ []) = none
quanta (a ∷ (b ∷ [])) = none
quanta (a ∷ (b ∷ (c ∷ []))) = none
quanta (a ∷ (b ∷ (c ∷ (d ∷ [])))) = if d == pad then last_quantum a b c d else quantum a b c d
quanta (a ∷ (b ∷ (c ∷ (d ∷ (f ∷ s))))) = do
  first ← quantum a b c d
  rest ← quanta (f ∷ s)
  some (first ++ rest)

unfoldable pub without_line_ends : Bytes → Bytes
without_line_ends [] = []
without_line_ends (c ∷ s) =
    let rest = without_line_ends s in if c == cr || c == lf then rest else c ∷ rest

unfoldable pub decode : Bytes → Option Bytes
unfolding quanta without_line_ends
decode s = quanta (without_line_ends s)

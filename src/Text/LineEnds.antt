-- ===== src/Text/LineEnds.antt =====
-- Line ends: where every LF stands behind a CR, and what `Unix2dos` makes of a text.
use tmail.Prelude.{ℕ, Bytes, ◌∷◌, ◌≡◌, ◌++◌, [], arith, if◌then◌else◌, ◌==◌, refl, ◌&&◌}
use tmail.Text.{cr, lf}
use tmail.Text.Utils.{to_dos, unix2dos, last_byte}

-- Every LF of the text stands behind a CR; `prev` is the byte before the text.
abbrev pub IsDos : ℕ → Bytes → Type 0
IsDos prev [] = Unit
IsDos prev (b ∷ s) = (b ≡ lf → prev ≡ cr) × IsDos b s

pub IsDos-concat :
    (s : Bytes) (prev b : ℕ)
    → IsDos prev s
    → (b ≡ lf → last_byte prev s ≡ cr)
    → IsDos prev (s ++ b ∷ [])
unfolding last_byte
IsDos-concat [] prev b d h = (h, tt)
IsDos-concat (c ∷ s) prev b d h = (d.0, IsDos-concat s c b d.1 h)

pub last_byte-concat : (s : Bytes) (prev b : ℕ) → last_byte prev (s ++ b ∷ []) ≡ b
unfolding last_byte
last_byte-concat [] prev b = refl
last_byte-concat (c ∷ s) prev b = last_byte-concat s c b

to_dos-IsDos : (s : Bytes) (prev : ℕ) → IsDos prev (to_dos prev s)
unfolding to_dos
to_dos-IsDos [] prev = tt
to_dos-IsDos (b ∷ s) prev = ground (arith, to_dos-IsDos s b)

to_dos_same : (s : Bytes) (prev : ℕ) → IsDos prev s → to_dos prev s ≡ s
unfolding to_dos
to_dos_same [] prev d = refl
to_dos_same (b ∷ s) prev d = ground (arith, to_dos_same s b)

-- The result is a text whose every LF stands behind a CR, and such a text is left alone.
pub unix2dos-IsDos : (s : Bytes) → IsDos 0 (unix2dos s)
unfolding unix2dos
unix2dos-IsDos s = to_dos-IsDos s 0

pub unix2dos_same : (s : Bytes) → IsDos 0 s → unix2dos s ≡ s
unfolding unix2dos
unix2dos_same s d = to_dos_same s 0 d

-- All the LFs that the text has, and the bytes between them, are kept: without the CRs before a
-- LF the two texts are one.
unfoldable pub undos : Bytes → Bytes
undos [] = []
undos (c ∷ []) = c ∷ []
undos (c ∷ (d ∷ s)) =
    let kept = c ∷ undos (d ∷ s) in
    let cut = undos (d ∷ s) in if c == cr && d == lf then cut else kept

undos-to_dos : (s : Bytes) (prev : ℕ) → undos (to_dos prev s) ≡ undos s
unfolding to_dos undos
undos-to_dos [] prev = refl
undos-to_dos (c ∷ []) prev = ground arith
undos-to_dos (c ∷ (d ∷ s)) prev = ground (arith, undos-to_dos (d ∷ s) c)

pub undos-unix2dos : (s : Bytes) → undos (unix2dos s) ≡ undos s
unfolding unix2dos
undos-unix2dos s = undos-to_dos s 0

-- `Unix2dos` makes every LF stand behind a CR, changes nothing else (the texts are one once the
-- CRs before LFs are dropped), and changes nothing when it is applied again.
pub unix2dos_correct :
    (s : Bytes)
    → IsDos 0 (unix2dos s) × (undos (unix2dos s) ≡ undos s) × (unix2dos (unix2dos s) ≡ unix2dos s)
unix2dos_correct s =
    (unix2dos-IsDos s, undos-unix2dos s, unix2dos_same (unix2dos s) (unix2dos-IsDos s))

-- ===== src/Message/Fold.antt =====
-- `FoldHeader` of message/message.go.
use tmail.Prelude.{
  ℕ, ◌+◌, ◌-◌, Bool, true, false, ◌||◌, [], ◌∷◌, ◌++◌, ltb, ◌==◌, if◌then◌else◌, Bytes, length,
}
use tmail.Text.{cr, lf, take, drop}

-- `bytes.Replace(raw, []byte{b}, []byte{}, -1)`
unfoldable pub without : ℕ → Bytes → Bytes
without b [] = []
without b (c ∷ s) = let rest = without b s in if c == b then rest else c ∷ rest

unfoldable pub is_blank : ℕ → Bool
is_blank c = c == 32 || c == 9

-- a run of blanks becomes one space; `inside` says that the byte before was a blank
unfoldable pub reduce_blanks : Bool → Bytes → Bytes
unfolding is_blank
reduce_blanks inside [] = []
reduce_blanks inside (c ∷ s) =
    let blank = 32 ∷ reduce_blanks true s in
    let again = reduce_blanks true s in
    let other = c ∷ reduce_blanks false s in
    if is_blank c then (if inside then again else blank) else other

unfoldable pub cleaned : Bytes → Bytes
unfolding without reduce_blanks
cleaned s = reduce_blanks false (without lf (without cr s))

-- the variables of the loop
pub record Folding : Type 0 where
  pub last_cut : ℕ
  pub last_space : ℕ
  pub header_length : ℕ
  pub spaces_seen : ℕ
  pub header : Bytes

abbrev pub fold_mark : Bytes
fold_mark = cr ∷ lf ∷ 32 ∷ 32 ∷ []

-- behind what was written already stands a line break and two spaces
unfoldable pub after_mark : Bytes → Bytes → Bytes
after_mark [] piece = piece
after_mark (c ∷ h) piece = (c ∷ h) ++ (fold_mark ++ piece)

unfoldable pub note_space : ℕ → ℕ → Folding → Folding
note_space i c f =
    if c == 32
    then record f {
      last_space = if f.spaces_seen == 0 then f.last_space else i;
      spaces_seen = f.spaces_seen + 1;
    }
    else f

unfoldable pub cut_line : Bytes → Folding → Folding
unfolding after_mark
cut_line raw f =
    if ltb 77 f.header_length
    then record f {
      header = after_mark f.header (take (f.last_space - f.last_cut) (drop f.last_cut raw));
      last_cut = f.last_space;
      header_length = 0;
    }
    else f

-- one round of the loop, at index `i`
unfoldable pub fold_byte : Bytes → ℕ → ℕ → Folding → Folding
unfolding note_space cut_line
fold_byte raw i c f =
    cut_line raw (note_space i c (record f { header_length = f.header_length + 1 }))

unfoldable pub fold_from : Bytes → ℕ → Bytes → Folding → Folding
unfolding fold_byte
fold_from raw i [] f = f
fold_from raw i (c ∷ s) f = fold_from raw (i + 1) s (fold_byte raw i c f)

abbrev pub unfolded : Folding
unfolded = record { last_cut = 0; last_space = 0; header_length = 0; spaces_seen = 0; header = [] }

-- the last piece, behind a mark if there is anything on both sides of it
unfoldable pub last_piece : Bytes → Folding → Bytes
unfolding after_mark
last_piece raw f =
    if ltb f.last_cut (length raw)
    then after_mark f.header (drop f.last_cut raw)
    else f.header ++ drop f.last_cut raw

unfoldable pub fold_clean : Bytes → Bytes
unfolding fold_from last_piece
fold_clean raw = if ltb (length raw) 78 then raw else last_piece raw (fold_from raw 0 raw unfolded)

unfoldable pub fold_header : Bytes → Bytes
unfolding cleaned fold_clean
fold_header s = fold_clean (cleaned s)

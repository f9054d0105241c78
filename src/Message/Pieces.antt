-- ===== src/Message/Pieces.antt =====
-- What `FoldHeader` changes.
use mathlib.Core.Path.{subst}
use tmail.Prelude.{
  Bytes, ◌+◌, ◌-◌, ◌*◌, ◌≤◌, ◌<◌, ◌≡◌, ◌∷◌, ◌++◌, ◌==◌, ◌∙◌, [], ℕ, List, refl, sym, inl, inr,
  arith, ltb, length, append-nil, append_assoc, length-append, Bool-cases, ltb→lt, ltb-false→le,
}
use tmail.Text.{take, drop}
use tmail.Message.Slices.{
  behind_text, joined, flat, pieces_of, slices, last_of, pieces_of-slices, slices-concat,
  last_of-concat, after_mark-behind, joined-concat, flat-concat, take-drop, take-split, drop-zero,
  take-zero,
}
use tmail.Message.Tidy.{Tidy, cleaned-Tidy}
use tmail.Message.Cuts.{Marks, Placed, LastSpace-lt, note_space-Marks, cut-Marks, spaces}
use tmail.Message.Fold.{
  Folding, after_mark, note_space, cut_line, fold_from, last_piece, fold_byte, fold_header,
  fold_clean, cleaned, unfolded,
}

-- What was written behind the bytes `front`: the pieces up to the last cut.
record Cut (raw front : Bytes) (f : Folding) : Type 0 where
  cuts : List ℕ
  marks : Marks raw front f cuts
  at_last : last_of 0 cuts ≡ f.last_cut
  covered : flat (slices raw 0 cuts) ≡ take f.last_cut raw
  written : f.header ≡ joined [] (slices raw 0 cuts)
  behind : f.last_cut ≤ f.last_space
  inside : f.last_space ≤ length front

note_space-Cut :
    (raw front : Bytes) (c : ℕ) (f : Folding)
    → f.header_length ≤ 77
    → Cut raw front f
    → Cut raw
        (front ++ c ∷ [])
        (note_space (length front) c (record f { header_length = f.header_length + 1 }))
note_space-Cut raw front c f short h =
    let marks = note_space-Marks raw front c f h.cuts short h.marks in
    let longer = length-append front (c ∷ []) in
    unfold note_space in
    elim (Bool-cases (c == 32)) [
      | inl space ↦ rw space (record {
        cuts = h.cuts;
        marks = rw space at marks;
        at_last = h.at_last;
        covered = h.covered;
        written = h.written;
        behind = ground (arith, h.behind, h.inside);
        inside = ground (arith, h.inside, longer);
      })
      | inr other ↦ rw other (record {
        cuts = h.cuts;
        marks = rw other at marks;
        at_last = h.at_last;
        covered = h.covered;
        written = h.written;
        behind = h.behind;
        inside = omega (arith, h.inside, longer);
      })
    ]

cut_line-Cut :
    (raw front back : Bytes) (f : Folding)
    → raw ≡ front ++ back
    → Cut raw front f
    → Cut raw front (cut_line raw f) × ((cut_line raw f).header_length ≤ 77)
unfolding cut_line
cut_line-Cut raw front back f whole h = elim (Bool-cases (ltb 77 f.header_length)) [
  | inl long ↦
      let piece = take (f.last_space - f.last_cut) (drop f.last_cut raw) in
      let grown : slices raw 0 (h.cuts ++ f.last_space ∷ []) ≡ slices raw 0 h.cuts ++ piece ∷ [] =
        slices-concat raw 0 f.last_space h.cuts ∙ rw h.at_last refl in
      let more = ltb→lt 77 f.header_length long in
      rw long (
        record {
          cuts = h.cuts ++ f.last_space ∷ [];
          marks = cut-Marks raw front back (after_mark f.header piece) f h.cuts whole more h.marks;
          at_last = last_of-concat 0 f.last_space h.cuts;
          covered = rw grown (
              flat-concat piece (slices raw 0 h.cuts)
              ∙ rw h.covered (take-split f.last_cut f.last_space raw h.behind));
          written =
              after_mark-behind f.header piece
              ∙ rw (h.written, grown) (sym (joined-concat [] piece (slices raw 0 h.cuts)));
          behind = omega arith;
          inside = h.inside;
        },
        omega arith,
      )
  | inr short ↦ rw short (h, ltb-false→le 77 f.header_length short)
]

fold_from-Cut :
    (raw front s : Bytes) (f : Folding)
    → raw ≡ front ++ s
    → f.header_length ≤ 77
    → Cut raw front f
    → Cut raw raw (fold_from raw (length front) s f)
      × ((fold_from raw (length front) s f).header_length ≤ 77)
unfolding fold_from fold_byte
fold_from-Cut raw front [] f whole short h =
    let same : raw ≡ front = whole ∙ append-nil front in
    (subst (λ x. Cut raw x f) (sym same) h, short)
fold_from-Cut raw front (c ∷ s) f whole short h =
    let more : raw ≡ (front ++ c ∷ []) ++ s = whole ∙ sym (append_assoc front (c ∷ []) s) in
    let noted = note_space (length front) c (record f { header_length = f.header_length + 1 }) in
    let (next, fits) =
      cut_line-Cut raw (front ++ c ∷ []) s noted more (note_space-Cut raw front c f short h) in
    let at : length (front ++ c ∷ []) ≡ length front + 1 = length-append front (c ∷ []) in
    let done = cut_line raw noted in
    subst
      (λ i. Cut raw raw (fold_from raw i s done) × ((fold_from raw i s done).header_length ≤ 77)) at
      (fold_from-Cut raw (front ++ c ∷ []) s done more fits next)

-- A text that is folded: cut once for every 78 bytes of it, each time at the last space so far.
pub record Folded (text out : Bytes) : Type 0 where
  pub cuts : List ℕ
  pub enough : 78 * length cuts ≤ length text
  pub no_more : length text < 78 * length cuts + 78
  pub placed : Placed text 1 cuts
  pub same_text : flat (pieces_of text 0 cuts) ≡ text
  pub broken : out ≡ joined [] (pieces_of text 0 cuts)

last_piece-Folded :
    (raw : Bytes) (f : Folding)
    → 0 < length raw
    → f.header_length ≤ 77
    → Cut raw raw f
    → Folded raw (last_piece raw f)
unfolding last_piece
last_piece-Folded raw f some_text short h =
    let last = LastSpace-lt raw f.last_space h.marks.last some_text in
    let rest = drop f.last_cut raw in
    let before = slices raw 0 h.cuts in
    let all : pieces_of raw 0 h.cuts ≡ before ++ rest ∷ [] =
      pieces_of-slices raw 0 h.cuts ∙ rw h.at_last refl in
    elim (Bool-cases (ltb f.last_cut (length raw))) [
      | inl more ↦ rw more (record {
        cuts = h.cuts;
        enough = omega (arith, h.marks.counted);
        no_more = omega (arith, h.marks.counted);
        placed = h.marks.placed;
        same_text = rw all (flat-concat rest before ∙ rw h.covered (take-drop f.last_cut raw));
        broken =
            after_mark-behind f.header rest
            ∙ rw (h.written, all) (sym (joined-concat [] rest before));
      })
      | inr none_left ↦
          absurd (omega (arith, h.behind, ltb-false→le f.last_cut (length raw) none_left))
    ]

start-Cut : (raw : Bytes) → Cut raw [] unfolded
unfolding flat joined slices last_of spaces
start-Cut raw = record {
  cuts = [];
  marks = record {
    counted = refl;
    capped = omega arith;
    seen = refl;
    last = inl (omega arith, refl);
    placed = tt;
  };
  at_last = refl;
  covered = sym (take-zero raw);
  written = refl;
  behind = omega arith;
  inside = omega arith;
}

short-Folded : (raw : Bytes) → length raw < 78 → Folded raw raw
unfolding flat joined pieces_of behind_text drop
short-Folded raw short = record {
  cuts = [];
  enough = omega arith;
  no_more = omega arith;
  placed = tt;
  same_text = append-nil (drop 0 raw) ∙ drop-zero raw;
  broken = sym (drop-zero raw);
}

fold_clean-Folded : (raw : Bytes) → Folded raw (fold_clean raw)
unfolding fold_clean
fold_clean-Folded raw = elim (Bool-cases (ltb (length raw) 78)) [
  | inl short ↦ rw short (short-Folded raw (ltb→lt (length raw) 78 short))
  | inr long ↦
      let (cut, fits) = fold_from-Cut raw [] raw unfolded refl (omega arith) (start-Cut raw) in
      let size = ltb-false→le (length raw) 78 long in
      rw long (last_piece-Folded raw (fold_from raw 0 raw unfolded) (omega arith) fits cut)
]

-- A header is tidied, each run of blanks becoming one space and each CR and LF being left out, and
-- the tidy text is cut once for every 78 bytes of it: the k-th time at the last space of its first
-- 78 k bytes, where the first space of the text does not count, and at 0 where there is none. The
-- pieces behind one another are the tidy text, and the result is the pieces with a line break and
-- two spaces in front of each that follows some text.
pub fold_header-Folded : (s : Bytes) → (text : Bytes) × Tidy s text × Folded text (fold_header s)
unfolding fold_header
fold_header-Folded s = (cleaned s, cleaned-Tidy s, fold_clean-Folded (cleaned s))

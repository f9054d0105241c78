-- ===== src/Smtpd/Reader/Lines.antt =====
-- The lines of the message that the loop of `smtpData` keeps.
use tmail.Prelude.{Bytes, ℕ, ◌≡◌, ◌++◌, arith, ◌∷◌, [], Bool-cases, ltb, inl, inr, refl}
use tmail.Text.{cr, lf}
use tmail.Text.Utils.{last_byte}
use tmail.Text.LineEnds.{IsDos, IsDos-concat, last_byte-concat}
use tmail.Smtpd.Reader.{
  Reader, State, in_line, dot_cr, after_cr, Move, stray, continue, finish, store, push, switch,
  Outcome, Limits, complete, settle, read_data, too_many_hops, scan_header, first_reader, too_big,
  stray_newline, read_error, u32, line_start, dot,
}

abbrev BehindCr : State → Bytes → Type 0
BehindCr dot_cr raw = last_byte 0 raw ≡ cr
BehindCr after_cr raw = last_byte 0 raw ≡ cr
BehindCr _ raw = Unit

abbrev Clean : Reader → Type 0
Clean r = IsDos 0 r.raw × BehindCr r.state r.raw

push-IsDos :
    (c : ℕ) (r : Reader)
    → IsDos 0 r.raw
    → (c ≡ lf → last_byte 0 r.raw ≡ cr)
    → IsDos 0 (push c r).raw
unfolding push
push-IsDos c r d h = IsDos-concat r.raw 0 c d h

push_last : (c : ℕ) (r : Reader) → last_byte 0 (push c r).raw ≡ c
unfolding push
push_last c r = last_byte-concat r.raw 0 c

-- What a step hands on: a stored byte may be a LF only behind a CR.
abbrev MoveClean : Move → ℕ → Type 0
MoveClean stray c = Unit
MoveClean (continue q) c = Clean q
MoveClean (finish q) c = IsDos 0 q.raw
MoveClean (store q) c =
    IsDos 0 q.raw × (c ≡ lf → last_byte 0 q.raw ≡ cr) × BehindCr q.state (q.raw ++ c ∷ [])

switch-Clean :
    (st : State) (c : ℕ) (r : Reader)
    → r.state ≡ st
    → IsDos 0 r.raw
    → BehindCr st r.raw
    → MoveClean (switch st c r) c
unfolding switch
switch-Clean in_line c r e d b =
    let r' = record r { state = after_cr } in ground (arith, push-IsDos c r', push_last c r')
switch-Clean line_start c r e d b =
    let r' = record r { state = after_cr } in ground (arith, push-IsDos c r', push_last c r')
switch-Clean dot c r e d b =
    let r' = record r { state = dot_cr } in ground (arith, push-IsDos c r', push_last c r')
switch-Clean dot_cr c r e d b =
    let r' = record r { state = after_cr } in
    ground (arith, push-IsDos c r', push_last c r', push-IsDos c r)
switch-Clean after_cr c r e d b =
    ground (arith, IsDos-concat r.raw 0 lf d (λ _. b), last_byte-concat r.raw 0 c)

-- The reader and the bytes that an outcome holds.
abbrev pub reader_of : Outcome → Reader
reader_of (complete q s) = q
reader_of (too_many_hops q s) = q
reader_of (too_big q s) = q
reader_of (stray_newline q s) = q
reader_of (read_error q) = q

module _ (l : Limits) where
  settle-IsDos :
      (s : Bytes) (c : ℕ) (r : Reader) (m : Move)
      → IsDos 0 r.raw
      → MoveClean m c
      → ((p : Reader) → Clean p → IsDos 0 (reader_of (read_data l p s)).raw)
      → IsDos 0 (reader_of (settle l (λ p. read_data l p s) s r c m)).raw
  unfolding settle push
  settle-IsDos s c r stray d k ih = d
  settle-IsDos s c r (continue p) d k ih = ih p k
  settle-IsDos s c r (finish p) d k ih = k
  settle-IsDos s c r (store p) d k ih =
      let kept = push-IsDos c p k.0 k.1 in
      elim (Bool-cases (ltb l.max_hops p.header.hops)) [
        | inl hops ↦ rw hops kept
        | inr few ↦ elim (Bool-cases (ltb (u32 l.max_data_bytes) (push c p).data_bytes)) [
          | inl big ↦ rw (few, big) kept
          | inr small ↦ rw (few, small) (ih (push c p) (kept, k.2))
        ]
      ]

  read_data-IsDos :
      (input : Bytes) (r : Reader) → Clean r → IsDos 0 (reader_of (read_data l r input)).raw
  unfolding read_data
  read_data-IsDos [] r k = k.0
  read_data-IsDos (c ∷ s) r k =
      let next = record r { header = scan_header c r.header } in
      settle-IsDos s c next (switch r.state c next) k.0 (switch-Clean r.state c next refl k.0 k.1)
        (λ p kp. read_data-IsDos s p kp)

-- However the loop ends, every LF of the message that it has kept stands behind a CR.
pub kept-IsDos :
    (l : Limits) (input : Bytes) → IsDos 0 (reader_of (read_data l first_reader input)).raw
kept-IsDos l input = read_data-IsDos l input first_reader (tt, tt)

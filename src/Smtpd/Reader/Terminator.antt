-- ===== src/Smtpd/Reader/Terminator.antt =====
use mathlib.Core.List.{reverse, reverse-cons}
-- Which bytes end a message in the loop of `smtpData`.
use tmail.Prelude.{ℕ, [], ◌∷◌, ◌≡◌, ◌⊎◌, Bytes, arith, ◌++◌, sym, ◌∙◌, inl, append_assoc, refl}
use tmail.Text.{cr, lf}
use tmail.Smtpd.Reader.{
  dot_byte, Reader, State, in_line, line_start, dot, dot_cr, after_cr, Move, stray, continue,
  finish, store, switch, push, read_data, Limits, complete, scan_header, settle, first_reader,
}

-- The bytes read, the latest first, are none or end a line.
abbrev pub AtLineStart : Bytes → Type 0
AtLineStart seen = (seen ≡ []) ⊎ ((before : Bytes) × (seen ≡ lf ∷ cr ∷ before))

-- The bytes read end with a dot alone on its line.
abbrev pub EndsMessage : Bytes → Type 0
EndsMessage seen = (before : Bytes) × (seen ≡ lf ∷ cr ∷ dot_byte ∷ before) × AtLineStart before

-- What each state knows of the bytes read.
abbrev pub Knows : State → Bytes → Type 0
Knows in_line seen = Unit
Knows line_start seen = AtLineStart seen
Knows dot seen = (before : Bytes) × (seen ≡ dot_byte ∷ before) × AtLineStart before
Knows dot_cr seen = (before : Bytes) × (seen ≡ cr ∷ dot_byte ∷ before) × AtLineStart before
Knows after_cr seen = (before : Bytes) × (seen ≡ cr ∷ before)

abbrev MoveKnows : Move → Bytes → Type 0
MoveKnows stray seen = Unit
MoveKnows (continue q) seen = Knows q.state seen
MoveKnows (finish q) seen = EndsMessage seen
MoveKnows (store q) seen = Knows q.state seen

switch-Knows :
    (st : State) (c : ℕ) (r : Reader) (seen : Bytes)
    → r.state ≡ st
    → Knows st seen
    → MoveKnows (switch st c r) (c ∷ seen)
unfolding switch
switch-Knows in_line c r seen e k = ground arith
switch-Knows _ c r seen e k = ground arith

push-Knows : (c : ℕ) (q : Reader) (seen : Bytes) → Knows q.state seen → Knows (push c q).state seen
unfolding push
push-Knows c q seen k = k

-- The bytes read and the bytes left spell the input, and the bytes read end a message.
abbrev pub EndsAt : Bytes → Bytes → Bytes → Type 0
EndsAt input seen rest =
    (ended : Bytes) × (reverse seen ++ input ≡ reverse ended ++ rest) × EndsMessage ended

shift : (c : ℕ) (seen input : Bytes) → reverse (c ∷ seen) ++ input ≡ reverse seen ++ c ∷ input
shift c seen input = rw reverse-cons (append_assoc (reverse seen) (c ∷ []) input)

-- Only the `finish` of a step completes the message, so what was read ends with a dot line.
module _ (l : Limits) (q : Reader) (rest : Bytes) where
  settle-EndsAt :
      (s seen : Bytes) (c : ℕ) (r : Reader) (m : Move)
      → MoveKnows m (c ∷ seen)
      → ((p : Reader)
          → Knows p.state (c ∷ seen)
          → read_data l p s ≡ complete q rest
          → EndsAt s (c ∷ seen) rest)
      → settle l (λ p. read_data l p s) s r c m ≡ complete q rest
      → EndsAt s (c ∷ seen) rest
  unfolding settle
  settle-EndsAt s seen c r stray known ih h = cc
  settle-EndsAt s seen c r (continue p) known ih h = ih p known h
  settle-EndsAt s seen c r (finish p) known ih h = (c ∷ seen, ground arith, known)
  settle-EndsAt s seen c r (store p) known ih h =
      ih (push c p) (push-Knows c p (c ∷ seen) known) (ground arith)

  read_data-EndsAt :
      (input : Bytes) (r : Reader) (seen : Bytes)
      → Knows r.state seen
      → read_data l r input ≡ complete q rest
      → EndsAt input seen rest
  unfolding read_data
  read_data-EndsAt [] r seen k h = cc
  read_data-EndsAt (c ∷ s) r seen k h =
      let next = record r { header = scan_header c r.header } in
      let (ended, spelled, ends) =
        settle-EndsAt s seen c next (switch r.state c next)
          (switch-Knows r.state c next seen refl k) (λ p kp. read_data-EndsAt s p (c ∷ seen) kp)
          h in
      (ended, sym (shift c seen s) ∙ spelled, ends)

-- A message is complete only behind a dot alone on its line, with CR and LF before and behind
-- it (or at the very start): the bytes read are `reverse ended`, and nothing else is consumed.
pub complete_at_dot_line :
    (l : Limits) (input rest : Bytes) (q : Reader)
    → read_data l first_reader input ≡ complete q rest
    → (ended : Bytes) × (input ≡ reverse ended ++ rest) × EndsMessage ended
complete_at_dot_line l input rest q h = read_data-EndsAt l q rest input first_reader [] (inl refl) h

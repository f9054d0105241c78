-- ===== src/Smtpd/Reader/Transparency.antt =====
-- A client that doubles leading dots (RFC 5321, 4.5.2) has its text read back unchanged.
use tmail.Smtpd.Reader.Steps.{
  Takes, IsQuiet, take_plain, take_dot, take_cr, take_lf, take_dot_cr, take_both, seen,
}
use tmail.Smtpd.Reader.Pipelined.{read_data-append}
use tmail.Text.{crlf}
use tmail.Prelude.{
  Bytes, ℕ, ◌∷◌, ◌++◌, arith, ◌≡◌, ◌⊎◌, [], refl, ◌≢◌, append_assoc, All, if◌then◌else◌, List, ◌∙◌,
  sym, ◌==◌, inl, append-nil, inr, Bool-cases,
}
use tmail.Smtpd.Reader.{
  Limits, Reader, push, switch, read_data, settle, in_line, cr, line_start, lf, dot_byte, complete,
  first_reader,
}

abbrev pub IsPlain : Bytes → Type 0
IsPlain = All (λ c. (c ≢ cr) × (c ≢ lf))

take_body :
    (l : Limits) (line rest : Bytes) (r : Reader)
    → IsPlain line
    → r.state ≡ in_line
    → IsQuiet l r (line ++ rest)
    → Takes l r line rest line in_line
take_body l [] rest r p h z = record {
  next = r;
  runs = refl;
  in_state = h;
  grows = sym (append-nil r.raw);
  quiet = z;
}
take_body l (c ∷ line) rest r p h z =
    let t = take_plain l r c (line ++ rest) p.0.0 p.0.1 (inl h) z in
    take_both t (take_body l line rest t.next p.1 t.in_state t.quiet)

-- What a client sends for a line, and for a text.
unfoldable pub stuff : Bytes → Bytes
stuff [] = []
stuff (c ∷ line) = if c == dot_byte then dot_byte ∷ c ∷ line else c ∷ line

unfoldable pub send : List Bytes → Bytes
unfolding stuff
send [] = dot_byte ∷ crlf
send (line ∷ lines) = stuff line ++ (crlf ++ send lines)

unfoldable pub text : List Bytes → Bytes
text [] = crlf
text (line ∷ lines) = line ++ (crlf ++ text lines)

take_crlf :
    (l : Limits) (rest : Bytes) (q : Reader)
    → (q.state ≡ in_line) ⊎ (q.state ≡ line_start)
    → IsQuiet l q (crlf ++ rest)
    → Takes l q crlf rest crlf line_start
take_crlf l rest q h z =
    let t = take_cr l q (lf ∷ rest) h z in take_both t (take_lf l t.next rest t.in_state t.quiet)

-- The first byte of a line is kept once, doubled or not.
take_first :
    (l : Limits) (c : ℕ) (line rest : Bytes) (r : Reader)
    → c ≢ cr
    → c ≢ lf
    → r.state ≡ line_start
    → IsQuiet l r (stuff (c ∷ line) ++ rest)
    → Takes l r (stuff (c ∷ [])) (line ++ rest) (c ∷ []) in_line
unfolding stuff
take_first l c line rest r no_cr no_lf h z = elim (Bool-cases (c == dot_byte)) [
  | inl dotted ↦
      let z' : IsQuiet l r (dot_byte ∷ c ∷ (line ++ rest)) = rw dotted at z in
      let t = take_dot l r (c ∷ (line ++ rest)) h z' in
      rw dotted (
        take_both t
          (take_plain l t.next c (line ++ rest) no_cr no_lf (inr (inl t.in_state)) t.quiet))
  | inr other ↦
      let z' : IsQuiet l r (c ∷ (line ++ rest)) = rw other at z in
      rw other (take_plain l r c (line ++ rest) no_cr no_lf (inr (inr (h, ground arith))) z')
]

stuff-append : (c : ℕ) (line : Bytes) → stuff (c ∷ line) ≡ stuff (c ∷ []) ++ line
unfolding stuff
stuff-append c line = ground arith

take_line :
    (l : Limits) (line rest : Bytes) (r : Reader)
    → IsPlain line
    → r.state ≡ line_start
    → IsQuiet l r (stuff line ++ (crlf ++ rest))
    → Takes l r (stuff line ++ crlf) rest (line ++ crlf) line_start
take_line l [] rest r p h z = unfold stuff in take_crlf l rest r (inr h) z
take_line l (c ∷ line) rest r p h z =
    let t = take_first l c line (crlf ++ rest) r p.0.0 p.0.1 h z in
    let u = take_body l line (crlf ++ rest) t.next p.1 t.in_state t.quiet in
    let body = take_both t u in
    let v = take_crlf l rest body.next (inl body.in_state) body.quiet in
    rw (stuff-append c line) (take_both body v)

-- The dot line ends the message, and its CR and LF are kept.
take_end :
    (l : Limits) (rest : Bytes) (r : Reader)
    → r.state ≡ line_start
    → IsQuiet l r (dot_byte ∷ cr ∷ lf ∷ rest)
    → (q : Reader) × (read_data l r (dot_byte ∷ cr ∷ lf ∷ rest) ≡ complete q rest)
      × (q.raw ≡ r.raw ++ crlf)
take_end l rest r h z =
    let t = take_dot l r (cr ∷ lf ∷ rest) h z in
    let u = take_dot_cr l t.next (lf ∷ rest) t.in_state t.quiet in
    (
      push lf (seen lf u.next),
      t.runs ∙ u.runs ∙ unfold read_data settle switch in ground (arith, u.in_state),
      unfold push in rw (u.grows, t.grows, append-nil, append_assoc),
    )

take_text :
    (l : Limits) (lines : List Bytes) (rest : Bytes) (r : Reader)
    → All IsPlain lines
    → r.state ≡ line_start
    → IsQuiet l r (send lines ++ rest)
    → (q : Reader) × (read_data l r (send lines ++ rest) ≡ complete q rest)
      × (q.raw ≡ r.raw ++ text lines)
unfolding send text
take_text l [] rest r p h z = take_end l rest r h z
take_text l (line ∷ lines) rest r p h z =
    let spelled : (stuff line ++ (crlf ++ send lines)) ++ rest
        ≡ stuff line ++ (crlf ++ (send lines ++ rest)) =
      append_assoc (stuff line) (crlf ++ send lines) rest in
    let t = take_line l line (send lines ++ rest) r p.0 h (rw spelled at z) in
    let (q, runs, grows) = take_text l lines rest t.next p.1 t.in_state t.quiet in
    (
      q,
      rw spelled (rw append_assoc at t.runs ∙ runs),
      grows ∙ rw (t.grows, append_assoc, append_assoc),
    )

-- A text of lines with no CR or LF in them, sent line by line with leading dots doubled and a dot
-- line behind, is read to its end and no further, and kept as its lines and one empty line, if
-- the hops counted in it and its length keep the limits, and the maximum of its length is below
-- 2 ^ 32.
pub read-send :
    (l : Limits) (lines : List Bytes) (rest : Bytes)
    → All IsPlain lines
    → IsQuiet l first_reader (send lines)
    → (q : Reader) × (read_data l first_reader (send lines ++ rest) ≡ complete q rest)
      × (q.raw ≡ text lines)
read-send l lines rest p z =
    let (q, runs, kept) = take_text l lines [] first_reader p refl (rw append-nil z) in
    (q, read_data-append l q [] rest (send lines) first_reader (rw append-nil at runs), kept)

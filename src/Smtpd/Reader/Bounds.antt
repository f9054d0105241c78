-- ===== src/Smtpd/Reader/Bounds.antt =====
-- The two limits of the loop of `smtpData`, where `uint32` does not wrap around.
use tmail.Prelude.{
  ℕ, length, ◌≡◌, ◌<◌, ◌≤◌, ◌+◌, Bool-cases, arith, ◌*◌, ◌^◌, refl, ◌==◌, length-append, inl, ◌∷◌,
  inr, [], Bytes, ltb, false, ltb-false→le,
}
use tmail.Smtpd.Reader.{
  Limits, Header, Reader, State, in_line, dot_cr, after_cr, Move, stray, continue, finish, store,
  push, switch, scan_header, match_crlf, match_received, match_delivered, settle, read_data,
  complete, first_reader, u32,
}

-- Only a `d` is the last byte of `received` or `delivered`.
match_crlf-hops : (c : ℕ) (h : Header) → (match_crlf c h).hops ≡ h.hops
unfolding match_crlf
match_crlf-hops c h = refl

match_received-hops : (c : ℕ) (h : Header) → c < b'D' → (match_received c h).hops ≡ h.hops
unfolding match_received
match_received-hops c h small = elim (Bool-cases (h.position == 7)) [
  | inl at_end ↦ ground (arith, at_end)
  | inr _ ↦ ground arith
]

match_delivered-hops : (c : ℕ) (h : Header) → c < b'D' → (match_delivered c h).hops ≡ h.hops
unfolding match_delivered
match_delivered-hops c h small = elim (Bool-cases (h.position == 8)) [
  | inl at_end ↦ ground (arith, at_end)
  | inr _ ↦ ground arith
]

scan_header-hops : (c : ℕ) (h : Header) → c < b'D' → (scan_header c h).hops ≡ h.hops
unfolding scan_header
scan_header-hops c h small = ground (
  arith,
  match_crlf-hops c (match_received c (match_delivered c h)),
  match_received-hops c (match_delivered c h),
  match_delivered-hops c h,
)

-- Bytes that were counted since the last test.
abbrev slack : State → ℕ
slack dot_cr = 1
slack after_cr = 2
slack _ = 0

record Sized (l : Limits) (extra : ℕ) (r : Reader) : Type 0 where
  bytes_capped : r.data_bytes ≤ l.max_data_bytes + extra
  hops_capped : r.header.hops ≤ l.max_hops
  raw_capped : length r.raw ≤ 2 * r.data_bytes

abbrev MoveSized : Limits → Move → Type 0
MoveSized l stray = Unit
MoveSized l (continue q) = Sized l (slack q.state) q
MoveSized l (finish q) = Sized l 2 q
MoveSized l (store q) =
    (length q.raw ≤ 2 * q.data_bytes + 1) × (q.data_bytes ≤ l.max_data_bytes + 2)

switch-Sized :
    (l : Limits) (st : State) (c : ℕ) (r : Reader)
    → l.max_data_bytes + 3 < 2 ^ 32
    → r.state ≡ st
    → r.data_bytes ≤ l.max_data_bytes + slack st
    → length r.raw ≤ 2 * r.data_bytes
    → (c < b'D' → r.header.hops ≤ l.max_hops)
    → MoveSized l (switch st c r)
unfolding switch push
switch-Sized l in_line c r fits e b w h = ground (arith, length-append r.raw (c ∷ []))
switch-Sized l after_cr c r fits e b w h = ground (arith, length-append r.raw (10 ∷ []))
switch-Sized l _ c r fits e b w h = ground (arith, length-append r.raw (c ∷ []))

stored-Sized :
    (l : Limits) (c : ℕ) (p : Reader)
    → l.max_data_bytes + 3 < 2 ^ 32
    → MoveSized l (store p)
    → ltb l.max_hops p.header.hops ≡ false
    → ltb (u32 l.max_data_bytes) (push c p).data_bytes ≡ false
    → Sized l (slack (push c p).state) (push c p)
unfolding push
stored-Sized l c p fits k few small =
    let hops = ltb-false→le _ _ few in
    let bytes = ltb-false→le _ _ small in
    record {
      bytes_capped = omega arith;
      hops_capped = omega arith;
      raw_capped = omega (arith, length-append p.raw (c ∷ []));
    }

module _ (l : Limits) (fits : l.max_data_bytes + 3 < 2 ^ 32) (q : Reader) (rest : Bytes) where
  settle-Sized :
      (s : Bytes) (c : ℕ) (r : Reader) (m : Move)
      → MoveSized l m
      → ((p : Reader) → Sized l (slack p.state) p → read_data l p s ≡ complete q rest → Sized l 2 q)
      → settle l (λ p. read_data l p s) s r c m ≡ complete q rest
      → Sized l 2 q
  unfolding settle
  settle-Sized s c r stray k ih h = cc
  settle-Sized s c r (continue p) k ih h = ih p k h
  settle-Sized s c r (finish p) k ih h = ground arith
  settle-Sized s c r (store p) k ih h = elim (Bool-cases (ltb l.max_hops p.header.hops)) [
    | inl hops ↦ cc (rw hops at h)
    | inr few ↦ elim (Bool-cases (ltb (u32 l.max_data_bytes) (push c p).data_bytes)) [
      | inl big ↦ cc (rw (few, big) at h)
      | inr small ↦ ih (push c p) (stored-Sized l c p fits k few small) (rw (few, small) at h)
    ]
  ]

  read_data-Sized :
      (input : Bytes) (r : Reader)
      → Sized l (slack r.state) r
      → read_data l r input ≡ complete q rest
      → Sized l 2 q
  unfolding read_data
  read_data-Sized [] r k h = cc
  read_data-Sized (c ∷ s) r k h =
      let next = record r { header = scan_header c r.header } in
      settle-Sized s c next (switch r.state c next)
        (switch-Sized l r.state c next fits refl k.bytes_capped k.raw_capped
          (λ small. omega (arith, scan_header-hops c r.header small, k.hops_capped)))
        (λ p kp. read_data-Sized s p kp) h

-- A message that is accepted keeps both limits: the hops counted are at most the maximum, the
-- bytes counted pass the maximum by two at most (the last CR and LF are not tested), and the
-- message kept is at most twice as long, since only a LF for each lone CR is added. The maximum
-- plus three is supposed to be below 2 ^ 32, since the bytes are counted modulo 2 ^ 32. A maximum
-- of 0 is one like any other here: it is no leave for a message of any length.
pub complete_bounds :
    (l : Limits) (input rest : Bytes) (q : Reader)
    → l.max_data_bytes + 3 < 2 ^ 32
    → read_data l first_reader input ≡ complete q rest
    → (q.header.hops ≤ l.max_hops)
      × (q.data_bytes ≤ l.max_data_bytes + 2)
      × (length q.raw ≤ 2 * q.data_bytes)
complete_bounds l input rest q fits h =
    let z = read_data-Sized l fits q rest input first_reader (omega arith) h in
    (z.hops_capped, z.bytes_capped, z.raw_capped)

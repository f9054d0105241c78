-- ===== src/Smtpd/Reader.antt =====
-- The byte loop of `smtpData` in core/smtpd_session.go: the search for the end of the message,
-- the count of hops in the header, and the two limits.
-- `header` holds the variables of the header scan, `Reader` those of the loop. A byte is read
-- from the list of bytes that the connection still gives; its end is a read error.
pub mod Bounds
pub mod Lines
pub mod Pipelined
pub mod Steps
pub mod Terminator
pub mod Transparency
use tmail.Prelude.{
  ℕ, zero, suc, ◌+◌, ◌%◌, ◌^◌, Bool, true, false, ◌&&◌, ◌||◌, [], ◌∷◌, ◌++◌, ltb, ◌==◌,
  if◌then◌else◌, Bytes, codes,
}
use tmail.Text.{cr, lf}

abbrev pub u32 : ℕ → ℕ
u32 n = n % 2 ^ 32

abbrev pub dot_byte : ℕ
dot_byte = 46

-- The limits of the configuration that the loop reads.
pub record Limits : Type 0 where
  pub max_hops : ℕ
  pub max_data_bytes : ℕ

pub record Header : Type 0 where
  pub position : ℕ
  pub hops : ℕ
  pub in_header : Bool
  pub might_match_received : Bool
  pub might_match_delivered : Bool
  pub might_match_crlf : Bool

-- The cases 0 to 4 of the `switch`.
pub data State : Type 0 where
  in_line line_start dot dot_cr after_cr : State

pub record Reader : Type 0 where
  pub header : Header
  pub state : State
  pub data_bytes : ℕ  -- uint32
  pub raw : Bytes

unfoldable pub byte_at : ℕ → Bytes → ℕ
byte_at n [] = 0
byte_at zero (c ∷ s) = c
byte_at (suc n) (c ∷ s) = byte_at n s

-- `ch[0] != byte(lower[pos]) && ch[0] != byte(upper[pos])` fails
unfoldable pub fits_word : Bytes → Bytes → ℕ → ℕ → Bool
unfolding byte_at
fits_word lower upper n c = c == byte_at n lower || c == byte_at n upper

abbrev pub delivered_word : Bytes
delivered_word = codes "delivered"

abbrev pub received_word : Bytes
received_word = codes "received"

unfoldable pub match_delivered : ℕ → Header → Header
unfolding fits_word
match_delivered c h =
    let still =
      h.might_match_delivered && fits_word delivered_word (codes "DELIVERED") h.position c in
    record h {
      might_match_delivered = still;
      hops = if still && h.position == 8 then h.hops + 1 else h.hops;
    }

unfoldable pub match_received : ℕ → Header → Header
unfolding fits_word
match_received c h =
    let still =
      if ltb h.position 8
      then h.might_match_received && fits_word received_word (codes "RECEIVED") h.position c
      else h.might_match_received in
    record h {
      might_match_received = still;
      hops = if still && h.position == 7 then h.hops + 1 else h.hops;
    }

unfoldable pub match_crlf : ℕ → Header → Header
unfolding byte_at
match_crlf c h =
    let still =
      if ltb h.position 2
      then h.might_match_crlf && c == byte_at h.position (cr ∷ lf ∷ [])
      else h.might_match_crlf in
    record h {
      might_match_crlf = still;
      in_header = if still && h.position == 1 then false else h.in_header;
    }

unfoldable pub advance : ℕ → Header → Header
advance c h =
    if c == lf
    then record h {
      position = 0;
      might_match_crlf = true;
      might_match_delivered = true;
      might_match_received = true;
    }
    else record h { position = h.position + 1 }

-- The block under `if flagInHeader`.
unfoldable pub scan_header : ℕ → Header → Header
unfolding match_delivered match_received match_crlf advance
scan_header c h =
    let matched =
      if ltb h.position 9 then match_crlf c (match_received c (match_delivered c h)) else h in
    if h.in_header then advance c matched else h

-- What a case of the `switch` does with the byte: it ends the handler, goes on with `continue`,
-- ends the loop, or falls to the statements below the `switch`.
pub data Move : Type 0 where
  stray : Move
  continue finish store : Reader → Move

-- `append(s.CurrentRawMail, ch[0])` and `s.dataBytes++`
unfoldable pub push : ℕ → Reader → Reader
push c r = record r { raw = r.raw ++ c ∷ []; data_bytes = u32 (r.data_bytes + 1) }

abbrev pub enter : State → Reader → Reader
enter st r = record r { state = st }

unfoldable pub switch : State → ℕ → Reader → Move
unfolding push
switch in_line c r =
    if c == lf then stray else if c == cr then continue (push c (enter after_cr r)) else store r
switch line_start c r =
    if c == lf
    then stray
    else if c == dot_byte
    then continue (enter dot r)
    else if c == cr
    then continue (push c (enter after_cr r))
    else store (enter in_line r)
switch dot c r =
    if c == lf
    then stray
    else if c == cr
    then continue (push c (enter dot_cr r))
    else store (enter in_line r)
switch dot_cr c r =
    if c == lf
    then finish (push c r)
    else if c == cr
    then continue (push c (enter after_cr r))
    else store (enter in_line r)
switch after_cr c r =
    if c == lf
    then store (enter line_start r)
    else if c == cr
    then store r
    else store (record r { raw = r.raw ++ lf ∷ []; state = in_line })

-- How the loop ends, with the bytes that are still unread.
pub data Outcome : Type 0 where
  complete too_many_hops too_big : Reader → Bytes → Outcome
  stray_newline : Reader → Bytes → Outcome
  read_error : Reader → Outcome

-- The rest of a round: `again` is the loop, from the reader that it is given.
unfoldable pub settle : Limits → (Reader → Outcome) → Bytes → Reader → ℕ → Move → Outcome
unfolding push
settle l again s seen c stray = stray_newline seen s
settle l again s seen c (continue q) = again q
settle l again s seen c (finish q) = complete q s
settle l again s seen c (store q) =
    let rest = again (push c q) in
    if ltb l.max_hops q.header.hops
    then too_many_hops (push c q) s
    else if ltb (u32 l.max_data_bytes) (push c q).data_bytes
    then too_big (push c q) s
    else rest

unfoldable pub read_data : Limits → Reader → Bytes → Outcome
unfolding scan_header switch settle
read_data l r [] = read_error r
read_data l r (c ∷ s) =
    let seen = record r { header = scan_header c r.header } in
    settle l (λ q. read_data l q s) s seen c (switch r.state c seen)

abbrev pub first_header : Header
first_header = record {
  position = 0;
  hops = 0;
  in_header = true;
  might_match_received = true;
  might_match_delivered = true;
  might_match_crlf = true;
}

abbrev pub first_reader : Reader
first_reader = record { header = first_header; state = line_start; data_bytes = 0; raw = [] }

-- ===== src/Smtpd/Reader/Steps.antt =====
-- How the loop of DATA takes one byte, or a few, within the limits.
use tmail.Prelude.{
  Bytes, ℕ, ◌∷◌, ◌≤◌, ◌++◌, arith, ◌+◌, ◌≡◌, length, ◌⊎◌, ◌<◌, [], ◌^◌, refl, ◌≢◌, append_assoc,
  ◌∙◌, sym, inl, append-nil, inr,
}
use tmail.Smtpd.Reader.{
  Limits, Header, Reader, State, continue, store, push, enter, switch, scan_header, read_data,
  match_crlf, match_received, match_delivered, settle, in_line, dot, after_cr, cr, line_start, lf,
  dot_byte, dot_cr,
}

-- The header scan over a whole text.
unfoldable pub scan_all : Header → Bytes → Header
unfolding scan_header
scan_all h [] = h
scan_all h (c ∷ s) = scan_all (scan_header c h) s

pub hops-le-scan_header : (c : ℕ) (h : Header) → h.hops ≤ (scan_header c h).hops
unfolding scan_header match_crlf match_received match_delivered
hops-le-scan_header c h = ground arith

pub hops-le-scan_all : (s : Bytes) (h : Header) → h.hops ≤ (scan_all h s).hops
unfolding scan_all
hops-le-scan_all [] h = omega arith
hops-le-scan_all (c ∷ s) h =
    omega (arith, hops-le-scan_header c h, hops-le-scan_all s (scan_header c h))

-- No limit is reached on the bytes that are left.
pub record IsQuiet (l : Limits) (r : Reader) (input : Bytes) : Type 0 where
  pub few_hops : (scan_all r.header input).hops ≤ l.max_hops
  pub short : r.data_bytes + length input ≤ l.max_data_bytes
  pub no_wrap : l.max_data_bytes < 2 ^ 32

-- The loop takes the bytes `read` in front of `rest`, adds `kept` to the message, and is in state
-- `st`.
pub record Takes (l : Limits) (r : Reader) (read rest kept : Bytes) (st : State) : Type 0 where
  pub next : Reader
  pub runs : read_data l r (read ++ rest) ≡ read_data l next rest
  pub in_state : next.state ≡ st
  pub grows : next.raw ≡ r.raw ++ kept
  pub quiet : IsQuiet l next rest

abbrev pub seen : ℕ → Reader → Reader
seen c r = record r { header = scan_header c r.header }

pub take_push :
    (l : Limits) (r : Reader) (c : ℕ) (s : Bytes) (st : State)
    → IsQuiet l r (c ∷ s)
    → (switch r.state c (seen c r) ≡ store (enter st (seen c r)))
      ⊎ (switch r.state c (seen c r) ≡ continue (push c (enter st (seen c r))))
    → Takes l r (c ∷ []) s (c ∷ []) st
unfolding push read_data settle scan_all
take_push l r c s st z h =
    let few = hops-le-scan_all s (scan_header c r.header) in
    record {
      next = push c (enter st (seen c r));
      runs = ground (arith, few, z.few_hops, z.short, z.no_wrap);
      in_state = refl;
      grows = refl;
      quiet = record {
        few_hops = z.few_hops;
        short = ground (arith, z.short, z.no_wrap);
        no_wrap = z.no_wrap;
      };
    }

-- A byte that is no line end is kept; a dot at the start of a line is not.
pub take_plain :
    (l : Limits) (r : Reader) (c : ℕ) (s : Bytes)
    → c ≢ cr
    → c ≢ lf
    → (r.state ≡ in_line) ⊎ (r.state ≡ dot) ⊎ ((r.state ≡ line_start) × (c ≢ dot_byte))
    → IsQuiet l r (c ∷ s)
    → Takes l r (c ∷ []) s (c ∷ []) in_line
take_plain l r c s no_cr no_lf h z =
    take_push l r c s in_line z (inl (unfold switch push in ground arith))

pub take_dot :
    (l : Limits) (r : Reader) (s : Bytes)
    → r.state ≡ line_start
    → IsQuiet l r (dot_byte ∷ s)
    → Takes l r (dot_byte ∷ []) s [] dot
unfolding read_data settle switch scan_all
take_dot l r s h z = record {
  next = enter dot (seen dot_byte r);
  runs = ground arith;
  in_state = refl;
  grows = sym (append-nil r.raw);
  quiet = record { few_hops = z.few_hops; short = ground (arith, z.short); no_wrap = z.no_wrap };
}

pub take_cr :
    (l : Limits) (r : Reader) (s : Bytes)
    → (r.state ≡ in_line) ⊎ (r.state ≡ line_start)
    → IsQuiet l r (cr ∷ s)
    → Takes l r (cr ∷ []) s (cr ∷ []) after_cr
take_cr l r s h z = take_push l r cr s after_cr z (inr (unfold switch push in ground arith))

pub take_dot_cr :
    (l : Limits) (r : Reader) (s : Bytes)
    → r.state ≡ dot
    → IsQuiet l r (cr ∷ s)
    → Takes l r (cr ∷ []) s (cr ∷ []) dot_cr
take_dot_cr l r s h z = take_push l r cr s dot_cr z (inr (unfold switch push in ground arith))

pub take_lf :
    (l : Limits) (r : Reader) (s : Bytes)
    → r.state ≡ after_cr
    → IsQuiet l r (lf ∷ s)
    → Takes l r (lf ∷ []) s (lf ∷ []) line_start
take_lf l r s h z = take_push l r lf s line_start z (inl (unfold switch push in ground arith))

-- Two such readings in a row.
pub take_both :
    {l : Limits} {r : Reader} {a b rest x y : Bytes} {st st' : State}
    → (t : Takes l r a (b ++ rest) x st) → Takes l t.next b rest y st'
    → Takes l r (a ++ b) rest (x ++ y) st'
take_both {l} {r} {a} {b} {rest} {x} {y} t u = record {
  next = u.next;
  runs = rw append_assoc (t.runs ∙ u.runs);
  in_state = u.in_state;
  grows = u.grows ∙ rw (t.grows, append_assoc);
  quiet = u.quiet;
}

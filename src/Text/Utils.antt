-- ===== src/Text/Utils.antt =====
-- core/utils.go: brackets, membership, quotes, address families, line ends, names with an MX.
use tmail.Prelude.{
  ℕ, Bool, true, false, not, ◌&&◌, ◌||◌, Option, none, some, List, [], ◌∷◌, ltb, ◌==◌,
  if◌then◌else◌, Bytes, length, eq_bytes,
}
use tmail.Text.{cr, lf}

-- `s[0 : len(s)-1]` if the last byte is `b`
unfoldable pub drop_last : ℕ → Bytes → Bytes
drop_last b [] = []
drop_last b (c ∷ []) = if c == b then [] else c ∷ []
drop_last b (c ∷ (d ∷ s)) = c ∷ drop_last b (d ∷ s)

unfoldable pub drop_first : ℕ → Bytes → Bytes
drop_first b [] = []
drop_first b (c ∷ s) = if c == b then s else c ∷ s

unfoldable pub remove_brackets : Bytes → Bytes
unfolding drop_first drop_last
remove_brackets s = drop_last b'>' (drop_first b'<' s)

unfoldable pub is_string_in_slice : Bytes → List Bytes → Bool
is_string_in_slice str [] = false
is_string_in_slice str (t ∷ s) = eq_bytes t str || is_string_in_slice str s

-- the last byte of a string that starts with `c`
unfoldable pub last_byte : ℕ → Bytes → ℕ
last_byte c [] = c
last_byte c (d ∷ s) = last_byte d s

-- `s[1 : len(s)-1]` of the string `c ∷ s`; `none` is the panic of the slice `[1:0]`
unfoldable pub inner : Bytes → Option Bytes
unfolding drop_last last_byte
inner [] = none
inner (d ∷ s) = some (drop_last (last_byte d s) (d ∷ s))

unfoldable pub strip_quotes : Bytes → Option Bytes
unfolding inner last_byte
strip_quotes [] = some []
strip_quotes (c ∷ s) = if c == 34 && last_byte c s == 34 then inner s else some (c ∷ s)

unfoldable pub is_ipv4 : Bytes → Bool
is_ipv4 ip = if ltb 15 (length ip) then false else true

-- the loop of `Unix2dos`; `prev` is the byte before
unfoldable pub to_dos : ℕ → Bytes → Bytes
to_dos prev [] = []
to_dos prev (b ∷ s) =
    let rest = to_dos b s in if b == lf && not (prev == cr) then cr ∷ lf ∷ rest else b ∷ rest

unfoldable pub unix2dos : Bytes → Bytes
unfolding to_dos
unix2dos s = to_dos 0 s

-- What a lookup in the DNS gives: a record, an error that ends in "no such host", another error.
pub data Lookup : Type 0 where
  found no_such_host : Lookup
  lookup_error : Bytes → Lookup

-- A Go result `(bool, error)`.
pub data Verdict : Type 0 where
  verdict : Bool → Verdict
  unresolved : Bytes → Verdict

unfoldable pub host_verdict : Lookup → Verdict
host_verdict found = verdict true
host_verdict no_such_host = verdict false
host_verdict (lookup_error e) = unresolved e

-- An MX lookup that fails for another reason than "no such host" counts as an answer.
unfoldable pub mx_verdict : Lookup → Lookup → Verdict
unfolding host_verdict
mx_verdict no_such_host host = host_verdict host
mx_verdict found host = verdict true
mx_verdict (lookup_error e) host = verdict true

-- `net.LookupMX` and `net.LookupHost` are the parameters.
unfoldable pub is_fqn : (Bytes → Lookup) → (Bytes → Lookup) → Bytes → Verdict
unfolding mx_verdict
is_fqn lookup_mx lookup_host host = mx_verdict (lookup_mx host) (lookup_host host)

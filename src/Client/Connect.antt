-- ===== src/Client/Connect.antt =====
-- `newSMTPClient`, `isRemoteIPOK` and `setIPKO` of core/smtp_client.go: the choice of the addresses.
-- The parser of addresses, the resolver, rand.Perm and the network are parameters; time is a number
-- of seconds.
pub mod Ko
pub mod Moments
pub mod Chosen
use tmail.Text.Utils.{is_ipv4}
use tmail.Deliverd.Routes.{Route}
use tmail.Text.{has_byte, split}
use tmail.Prelude.{
  Bytes, ◌∷◌, ◌+◌, if◌then◌else◌, [], ℕ, true, false, Bool, none, some, Option, List, ltb, eq_bytes,
  ◌&&◌, ◌==◌, suc, zero, not, length,
}

-- What becomes of a connection: it is made and greeted by 220, it fails, or nothing happens in time.
pub data Dialled : Type 0 where
  dial_greeted dial_failed dial_timed_out : Dialled

-- `parse_ip` gives the text of the address again, `resolve_local` whether `ResolveTCPAddr` takes
-- it. `dial` says what becomes of the connection at the n-th try, and how long it takes.
pub record ConnectWorld : Type 0 where
  pub local_ips : Bytes
  pub parse_ip : Bytes → Option Bytes
  pub lookup_ip : Bytes → Option (List Bytes)
  pub perm : ℕ → List ℕ
  pub resolve_local : Bytes → Bool
  pub dial : ℕ → Bytes → Bytes → ℕ → Dialled × ℕ

-- The bucket `koip`: an address, and the second it was put in, or `none` if that is no number. The
-- newest entry comes first.
abbrev pub KoIps : Type 0
KoIps = List (Bytes × Option ℕ)

pub record Net : Type 0 where
  pub ko_ips : KoIps
  pub now : ℕ
  pub tries : ℕ

unfoldable pub find_ko : Bytes → KoIps → Option (Option ℕ)
find_ko ip [] = none
find_ko ip ((i, t) ∷ rest) = if eq_bytes i ip then some t else find_ko ip rest

unfoldable pub remove_ko : Bytes → KoIps → KoIps
remove_ko ip [] = []
remove_ko ip ((i, t) ∷ rest) =
    let kept = remove_ko ip rest in if eq_bytes i ip then kept else (i, t) ∷ kept

-- `time.Since(insertedAt).Minutes() > 15`
unfoldable pub judge_ko : Bytes → Option (Option ℕ) → Net → Bool × Net
judge_ko ip (some (some t)) n =
    if ltb (t + 900) n.now then (true, record n { ko_ips = remove_ko ip n.ko_ips }) else (false, n)
judge_ko ip _ n = (true, n)

-- `isRemoteIPOK`
unfoldable pub is_remote_ip_ok : Bytes → Net → Bool × Net
is_remote_ip_ok ip n = judge_ko ip (find_ko ip n.ko_ips) n

-- `setIPKO`
unfoldable pub set_ip_ko : Bytes → Net → Net
set_ip_ko ip n = record n { ko_ips = (ip, some n.now) ∷ remove_ko ip n.ko_ips }

module _ {A : Type 0} where
  unfoldable pub put_at : ℕ → A → List A → List A
  put_at n a [] = []
  put_at zero a (x ∷ xs) = a ∷ xs
  put_at (suc n) a (x ∷ xs) = x ∷ put_at n a xs

  -- `rSIps[v] = sIps[i]`
  unfoldable pub deal : List ℕ → List A → List A → List A
  deal (v ∷ perm) (a ∷ rest) into = deal perm rest (put_at v a into)
  deal _ _ into = into

unfoldable pub blanks : ℕ → List Bytes
blanks zero = []
blanks (suc n) = [] ∷ blanks n

unfoldable pub shuffle : (ℕ → List ℕ) → List Bytes → List Bytes
shuffle perm ips = deal (perm (length ips)) ips (blanks (length ips))

-- the local addresses of a route; `none` where failover and round robin are mixed
unfoldable pub local_texts : (ℕ → List ℕ) → Bytes → Option (List Bytes)
local_texts perm text =
    let failover = has_byte b'&' text in
    let round_robin = has_byte b'|' text in
    if failover && round_robin
    then none
    else if failover
    then some (shuffle perm (split text (b'&' ∷ [])))
    else if round_robin
    then some (shuffle perm (split text (b'|' ∷ [])))
    else some (text ∷ [])

unfoldable pub add_parsed : Option Bytes → Option (List Bytes) → Option (List Bytes)
add_parsed (some ip) (some rest) = some (ip ∷ rest)
add_parsed _ _ = none

unfoldable pub parse_all : (Bytes → Option Bytes) → List Bytes → Option (List Bytes)
parse_all parse [] = some []
parse_all parse (t ∷ rest) = add_parsed (parse t) (parse_all parse rest)

unfoldable pub local_or_default : Bytes → Option Bytes → Bytes
local_or_default d none = d
local_or_default d (some text) = if length text == 0 then d else text

unfoldable pub parse_texts : (Bytes → Option Bytes) → Option (List Bytes) → Option (List Bytes)
parse_texts parse none = none
parse_texts parse (some texts) = parse_all parse texts

unfoldable pub local_ips_of : ConnectWorld → Route → Option (List Bytes)
local_ips_of w r =
    parse_texts w.parse_ip (local_texts w.perm (local_or_default w.local_ips r.local_ip))

unfoldable pub or_lookup : ConnectWorld → Bytes → Option Bytes → Option (List Bytes)
or_lookup w host (some ip) = some (ip ∷ [])
or_lookup w host none = w.lookup_ip host

unfoldable pub remote_ips_of : ConnectWorld → Route → Option (List Bytes)
remote_ips_of w r = or_lookup w r.remote_host (w.parse_ip r.remote_host)

unfoldable pub port_of : Option ℕ → ℕ
port_of none = 0
port_of (some n) = n

pub record Connected : Type 0 where
  pub route : Route
  pub local : Bytes
  pub remote : Bytes

-- The source returns a client, or an error, or it goes on.
pub data Try : Type 0 where
  connected : Connected → Try
  gives_up goes_on : Try

unfoldable pub or_next : Try × Net → (Net → Try × Net) → Try × Net
or_next (connected c, n) next = (connected c, n)
or_next (gives_up, n) next = (gives_up, n)
or_next (goes_on, n) next = next n

unfoldable pub each : {A : Type 0} → (A → Net → Try × Net) → List A → Net → Try × Net
each f [] n = (goes_on, n)
each f (a ∷ rest) n = or_next (f a n) (each f rest)

unfoldable pub end_dial : Connected → Dialled → Net → Try × Net
end_dial c dial_greeted n = (connected c, n)
end_dial c dial_failed n = (goes_on, n)
end_dial c dial_timed_out n = (goes_on, set_ip_ko c.remote n)

unfoldable pub dial_pair : ConnectWorld → Connected → Net → Try × Net
dial_pair w c n =
    let (d, seconds) = w.dial n.tries c.local c.remote (port_of c.route.remote_port) in
    end_dial c d (record n { now = n.now + seconds; tries = n.tries + 1 })

unfoldable pub if_ok : ConnectWorld → Connected → Bool × Net → Try × Net
if_ok w c (false, n) = (goes_on, n)
if_ok w c (true, n) = if w.resolve_local c.local then dial_pair w c n else (gives_up, n)

unfoldable pub same_family : Bytes → Bytes → Bool
same_family l r = if is_ipv4 l then is_ipv4 r else not (is_ipv4 r)

-- the body of the two inner loops
unfoldable pub try_pair : ConnectWorld → Route → Bytes → Bytes → Net → Try × Net
try_pair w route l r n =
    if same_family l r
    then if_ok w (record { route = route; local = l; remote = r }) (is_remote_ip_ok r n)
    else (goes_on, n)

unfoldable pub try_route :
    ConnectWorld → Route → Option (List Bytes) → Option (List Bytes) → Net → Try × Net
try_route w route (some locals) (some remotes) n =
    each (λ l. each (λ r. try_pair w route l r) remotes) locals n
try_route w route _ _ n = (gives_up, n)

unfoldable pub end_routes : Try × Net → Option Connected × Net
end_routes (connected c, n) = (some c, n)
end_routes (_, n) = (none, n)

-- `newSMTPClient`
unfoldable pub new_smtp_client : ConnectWorld → List Route → Net → Option Connected × Net
new_smtp_client w routes n =
    end_routes
      (each (λ route. try_route w route (local_ips_of w route) (remote_ips_of w route)) routes n)

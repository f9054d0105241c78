-- ===== src/Client.antt =====
-- core/smtp_client.go: the commands of the SMTP client that delivers to a remote host.
-- The remote host is the list of its answers; behind the last one it closes the connection. The
-- timer of a command stops with its last byte sent, so that `timed_out` is a command that could not
-- be sent in time. What is kept for log lines only is left out.
pub mod Auth
pub mod Connect
pub mod Tls
use tmail.Prelude.{
  Bytes, ◌&&◌, ◌∷◌, ◌++◌, ◌==◌, ◌-◌, ◌/◌, if◌then◌else◌, [], ℕ, true, false, Bool, none, some,
  Option, List, ltb, leb, codes, eq_bytes, map,
}
use Prim.Native.String.{String}
use tmail.Text.{split, split_at_byte, drop}

pub data Answer : Type 0 where
  timed_out lost : Answer
  reply : (code : ℕ) (msg : Bytes) → Answer

-- The errors of the client; `unexpected` is `textproto.Error`.
pub data ClientError : Type 0 where
  timeout connection_lost bad_base64 : ClientError
  unexpected : (code : ℕ) (msg : Bytes) → ClientError
  refused : String → ClientError

-- The three results of a command.
pub record Outcome : Type 0 where
  pub code : ℕ
  pub msg : Bytes
  pub err : Option ClientError

-- `ext` is the map of extensions, the newest entry first, or nil. `sent` has the lines of the
-- commands.
pub record SmtpClient : Type 0 where
  pub remote_host : Bytes
  pub ext : Option (List (Bytes × Bytes))
  pub tls : Bool
  pub auth : List Bytes
  pub sent : List Bytes
  pub answers : List Answer
  pub closed : Bool

-- `ReadResponse(expected)`: one, two or three digits of the code, or with 0 any code. The source
-- gives -1 for any code too.
unfoldable pub fits : ℕ → ℕ → Bool
fits expected code =
    if expected == 0
    then true
    else if ltb expected 10
    then code / 100 == expected
    else if ltb expected 100
    then code / 10 == expected
    else code == expected

unfoldable pub answered : ℕ → Answer → Outcome
answered expected timed_out = record { code = 0; msg = []; err = some timeout }
answered expected lost = record { code = 0; msg = []; err = some connection_lost }
answered expected (reply code msg) = record {
  code = code;
  msg = msg;
  err = if fits expected code then none else some (unexpected code msg);
}

unfoldable pub next_answer : List Answer → Answer × List Answer
next_answer [] = (lost, [])
next_answer (a ∷ rest) = (a, rest)

-- `cmd`
unfoldable pub cmd : ℕ → Bytes → SmtpClient → Outcome × SmtpClient
cmd expected line c =
    let (a, rest) = next_answer c.answers in
    (answered expected a, record c { sent = c.sent ++ line ∷ []; answers = rest })

unfoldable pub find_ext : Bytes → List (Bytes × Bytes) → Option Bytes
find_ext name [] = none
find_ext name ((k, v) ∷ rest) = if eq_bytes k name then some v else find_ext name rest

unfoldable pub upper_byte : ℕ → ℕ
upper_byte c = if leb b'a' c && leb c b'z' then c - 32 else c

-- `Extension`
unfoldable pub found_ext : Option Bytes → Bool × Bytes
found_ext none = (false, [])
found_ext (some param) = (true, param)

unfoldable pub ext_of : Bytes → Option (List (Bytes × Bytes)) → Bool × Bytes
ext_of name none = (false, [])
ext_of name (some ext) = found_ext (find_ext (map upper_byte name) ext)

unfoldable pub extension : Bytes → SmtpClient → Bool × Bytes
extension name c = ext_of name c.ext

-- a line of the reply to EHLO
unfoldable pub ext_line : List Bytes → Bytes × Bytes
ext_line (k ∷ (v ∷ rest)) = (k, v)
ext_line (k ∷ []) = (k, [])
ext_line [] = ([], [])

unfoldable pub read_ext : List Bytes → List (Bytes × Bytes) → List (Bytes × Bytes)
read_ext [] ext = ext
read_ext (line ∷ rest) ext = read_ext rest (ext_line (split_at_byte 32 line) ∷ ext)

-- The first line of the reply is a greeting.
unfoldable pub extensions : Bytes → List (Bytes × Bytes)
extensions msg = read_ext (drop 1 (split msg (10 ∷ []))) []

unfoldable pub mechanisms : List Bytes → Option Bytes → List Bytes
mechanisms known none = known
mechanisms known (some mechs) = split mechs (32 ∷ [])

unfoldable pub end_ehlo : Outcome → Option ClientError → SmtpClient → Outcome × SmtpClient
end_ehlo o (some e) c = (o, c)
end_ehlo o none c =
    let ext = extensions o.msg in
    (o, record c { ext = some ext; auth = mechanisms c.auth (find_ext (codes "AUTH") ext) })

-- `Ehlo`, with the name of the server
unfoldable pub ehlo : Bytes → SmtpClient → Outcome × SmtpClient
ehlo me c = let (o, c') = cmd 250 (codes "EHLO " ++ me) c in end_ehlo o o.err c'

-- `Helo`
unfoldable pub helo : Bytes → SmtpClient → Outcome × SmtpClient
helo me c = cmd 250 (codes "HELO " ++ me) (record c { ext = none })

unfoldable pub or_helo : Bytes → Outcome → Option ClientError → SmtpClient → Outcome × SmtpClient
or_helo me o none c = (o, c)
or_helo me o (some e) c = helo me c

-- `Hello`
unfoldable pub hello : Bytes → SmtpClient → Outcome × SmtpClient
hello me c = let (o, c') = ehlo me c in or_helo me o o.err c'

-- `Noop`
unfoldable pub noop : SmtpClient → Outcome × SmtpClient
noop c = cmd 200 (codes "NOOP") c

unfoldable pub end_tls : Outcome → Option ClientError → SmtpClient → Outcome × SmtpClient
end_tls o (some e) c = (o, c)
end_tls o none c = (o, record c { tls = true })

unfoldable pub over_tls : Bytes → Outcome → Option ClientError → SmtpClient → Outcome × SmtpClient
over_tls me o (some e) c = (o, c)
over_tls me o none c = let (o', c') = ehlo me c in end_tls o' o'.err c'

-- `StartTLS`; the handshake is made by the first command behind it
unfoldable pub start_tls : Bytes → SmtpClient → Outcome × SmtpClient
start_tls me c =
    let (o, c') = cmd 220 (codes "STARTTLS") (record c { tls = false }) in over_tls me o o.err c'

-- `Mail`
unfoldable pub mail : Bytes → SmtpClient → Outcome × SmtpClient
mail from c = cmd 250 (codes "MAIL FROM:<" ++ (from ++ codes ">")) c

-- The error of `Rcpt` has the text of the reply, and no code.
unfoldable pub end_rcpt : Outcome → Outcome
end_rcpt o =
    if o.code == 250 then o else if o.code == 251 then o else record o { err = some (refused "") }

-- `Rcpt`
unfoldable pub rcpt : Bytes → SmtpClient → Outcome × SmtpClient
rcpt to c = let (o, c') = cmd 0 (codes "RCPT TO:<" ++ (to ++ codes ">")) c in (end_rcpt o, c')

-- `Data`
unfoldable pub data_cmd : SmtpClient → Outcome × SmtpClient
data_cmd c = cmd 354 (codes "DATA") c

-- `Quit`
unfoldable pub quit : SmtpClient → Outcome × SmtpClient
quit c = let (o, c') = cmd 221 (codes "QUIT") c in (o, record c' { closed = true })

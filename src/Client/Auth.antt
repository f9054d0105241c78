-- ===== src/Client/Auth.antt =====
-- core/deliverd_auth.go, and `Auth` of core/smtp_client.go.
pub mod Success
pub mod Secret
use tmail.Prelude.{
  Bytes, ◌∷◌, ◌++◌, ◌==◌, if◌then◌else◌, [], true, false, Bool, none, some, Option, List, codes,
  eq_bytes, ◌||◌, not,
}
use tmail.Text.Base64.{decode}
use tmail.Text.Utils.{is_string_in_slice}
use tmail.Client.{
  SmtpClient, Outcome, Answer, ClientError, cmd, quit, unexpected, bad_base64, refused,
}

pub record ServerInfo : Type 0 where
  pub name : Bytes
  pub tls : Bool
  pub auth : List Bytes

-- `DeliverdAuth`: the name of the mechanism with the first data, and the answer to a challenge.
-- `none` is an error; the inner `none` of `next` is nil.
pub record Mechanism : Type 0 where
  pub start : ServerInfo → Option (Bytes × Bytes)
  pub next : Bytes → Bool → Option (Option Bytes)

unfoldable pub start_plain : Bytes → Bytes → Bytes → Bytes → ServerInfo → Option (Bytes × Bytes)
start_plain identity username password host server =
    if not (server.tls || is_string_in_slice (codes "PLAIN") server.auth)
    then none
    else if not (eq_bytes server.name host)
    then none
    else some (codes "PLAIN", identity ++ (0 ∷ username ++ (0 ∷ password)))

-- `PlainAuth`
unfoldable pub plain_auth : Bytes → Bytes → Bytes → Bytes → Mechanism
plain_auth identity username password host = record {
  start = start_plain identity username password host;
  next = λ msg more. if more then none else some none;
}

-- `CRAMMD5Auth`; `hmac_md5` gives the digest in hexadecimal
unfoldable pub cram_md5_auth : (Bytes → Bytes → Bytes) → Bytes → Bytes → Mechanism
cram_md5_auth hmac_md5 username secret = record {
  start = λ server. some (codes "CRAM-MD5", []);
  next =
      λ msg more. if more then some (some (username ++ (32 ∷ hmac_md5 secret msg))) else some none;
}

-- What the loop does next: it stops with an error, it is through, or it sends data.
pub data Turn : Type 0 where
  fails : ClientError → Turn
  ends : Turn
  sends : Bytes → Turn

unfoldable pub of_next : Option (Option Bytes) → Turn
of_next none = fails (refused "unexpected server challenge")
of_next (some none) = ends
of_next (some (some r)) = sends r

unfoldable pub of_challenge : Mechanism → Option Bytes → Turn
of_challenge m none = fails bad_base64
of_challenge m (some msg) = of_next (m.next msg true)

-- the switch on the code
unfoldable pub turn : Mechanism → Outcome → Turn
turn m o =
    if o.code == 334
    then of_challenge m (decode o.msg)
    else if o.code == 235
    then of_next (m.next o.msg false)
    else fails (unexpected o.code o.msg)

-- `*`, and QUIT
unfoldable pub abort_auth : SmtpClient → SmtpClient
abort_auth c = (quit (cmd 501 (codes "*") c).1).1

-- `Auth` gives the last code and error, and no text.
unfoldable pub silent : Outcome → Option ClientError → Outcome
silent o err = record { code = o.code; msg = []; err = err }

-- a round of the loop; `more` sends data and goes on
unfoldable pub run_turn :
    (Bytes → Outcome × SmtpClient)
    → Turn
    → Option ClientError
    → Outcome
    → SmtpClient
    → Outcome × SmtpClient
run_turn more t (some e) o c = (silent o (some e), c)
run_turn more (fails e) none o c = (silent o (some e), abort_auth c)
run_turn more ends none o c = (silent o none, c)
run_turn more (sends r) none o c = more r

unfoldable pub last_reply : Outcome × SmtpClient → Outcome × SmtpClient
last_reply (o, c) = (silent o o.err, c)

-- The loop over the challenges, by the answers to come; `encode` is that of base64.
unfoldable pub auth_loop :
    (Bytes → Bytes) → Mechanism → List Answer → Outcome → SmtpClient → Outcome × SmtpClient
auth_loop encode m [] o c = run_turn (λ r. last_reply (cmd 0 (encode r) c)) (turn m o) o.err o c
auth_loop encode m (a ∷ rest) o c =
    run_turn (λ r. let (o', c') = cmd 0 (encode r) c in auth_loop encode m rest o' c') (turn m o)
      o.err o c

unfoldable pub start_auth :
    (Bytes → Bytes) → Mechanism → Option (Bytes × Bytes) → SmtpClient → Outcome × SmtpClient
start_auth encode m none c = (
  record { code = 0; msg = []; err = some (refused "unencrypted connection, or wrong host name") },
  (quit c).1,
)
start_auth encode m (some (mech, resp)) c =
    let (o, c') = cmd 0 (codes "AUTH " ++ (mech ++ (32 ∷ encode resp))) c in
    auth_loop encode m c'.answers o c'

-- `Auth`
unfoldable pub auth : (Bytes → Bytes) → Mechanism → SmtpClient → Outcome × SmtpClient
auth encode m c =
    start_auth encode m (m.start (record { name = c.remote_host; tls = c.tls; auth = c.auth })) c

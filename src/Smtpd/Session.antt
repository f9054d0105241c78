-- ===== src/Smtpd/Session.antt =====
-- The state of an SMTP session, its surroundings, and the helpers of core/smtpd_session.go and
-- core/plugin.go that all the commands share.
-- The connection is in the session: `inbox` holds the bytes that it will still give, and `sent`
-- the replies written to it. `queue` is the mail queue as the session finds it. Pauses, log lines
-- and the reset of the timer are left out.
use tmail.Prelude.{◌∷◌, ◌++◌, if◌then◌else◌, [], ℕ, true, false, Bool, none, Option, List, Bytes}
use Prim.Native.String.{String}
use tmail.Directory.{User, Directory}
use tmail.Message.{Envelope}
use tmail.Queue.{Queue, Backend}
use tmail.Text.Utils.{Lookup}

pub record Config : Type 0 where
  pub me : Bytes
  pub version : Bytes
  pub hide_server_signature : Bool
  pub concurrency_incoming : ℕ
  pub helo_mandatory : Bool
  pub helo_needs_fqn_or_address : Bool
  pub mail_from_localpart_size : Bool
  pub max_data_bytes : ℕ
  pub max_hops : ℕ
  pub max_rcpt_to : ℕ
  pub max_bad_rcpt_to : ℕ
  pub max_vrfy : ℕ
  pub clamav_enabled : Bool

-- A line of a reply: its code, its text with `%s` or `%d` for each argument, and the arguments (a
-- number is a list of one element).
pub record Reply : Type 0 where
  pub code : ℕ
  pub text : String
  pub args : List Bytes

pub record Session : Type 0 where
  pub uuid : Bytes
  pub remote_addr : Bytes
  pub local_addr : Bytes
  pub inbox : Bytes
  pub sent : List Reply
  pub tls : Bool
  pub relay_granted : Bool
  pub user : Option User
  pub seen_helo : Bool
  pub seen_mail : Bool
  pub last_client_cmd : Bytes
  pub helo : Bytes
  pub envelope : Envelope
  pub last_rcpt_to : Bytes
  pub exitasap : Bool
  pub rcpt_count : ℕ
  pub bad_rcpt_to_count : ℕ
  pub vrfy_count : ℕ
  pub smtp_response_code : ℕ
  pub data_bytes : ℕ
  pub exiting : Bool
  pub closed : Bool
  pub current_raw_mail : Bytes
  pub queue : Queue

-- The hooks at which a plugin may be registered.
pub data Hook : Type 0 where
  at_connect at_helo at_mailpre at_mailpost at_rcptto at_data at_beforequeue at_quit at_exitasap :
      Hook

pub data Scan : Type 0 where
  clean scan_error : Scan
  infected : Bytes → Scan

-- What the session takes from outside: the configuration, the plugins, the resolver, the parser of
-- addresses of net/mail, the accounts, the virus scanner, the queue's backend, TLS and the clock.
pub record Env : Type 0 where
  pub cfg : Config
  pub plugins : Hook → List (Session → Session × Bool)
  pub sessions_count : ℕ
  pub parse_ip : Bytes → Bool
  pub lookup_mx : Bytes → Lookup
  pub lookup_host : Bytes → Lookup
  pub lookup_addr : Bytes → Option Bytes
  pub parse_address : Bytes → Bool
  pub directory : Directory
  pub scan_stream : Bytes → Scan
  pub backend : Backend
  pub load_key_pair : Option Bytes
  pub handshake : Option Bytes
  pub tls_description : Bytes
  pub now_unix : Bytes
  pub now_822 : Bytes

-- `Out`
unfoldable pub out : ℕ → String → List Bytes → Session → Session
out n text args s = record s { sent = s.sent ++ record { code = n; text = text; args = args } ∷ [] }

-- `Out` and the assignment to `SMTPResponseCode` behind it
unfoldable pub answer : ℕ → String → List Bytes → Session → Session
unfolding out
answer n text args s = record (out n text args s) { smtp_response_code = n }

unfoldable pub run_first : List (Session → Session × Bool) → Session → Session × Bool
run_first [] s = (s, false)
run_first (p ∷ ps) s = p s

-- `execSMTPdPlugins`: both branches of the loop's body return, so one plugin runs at most
unfoldable pub exec_smtpd_plugins : Env → Hook → Session → Session × Bool
unfolding run_first
exec_smtpd_plugins e hook s = run_first (e.plugins hook) s

-- `ExitAsap`
unfoldable pub exit_asap : Env → Session → Session
exit_asap e s =
    if s.exiting
    then s
    else record ((exec_smtpd_plugins e at_exitasap (record s { exiting = true })).0) {
      exitasap = true;
    }

-- `recoverOnPanic`, after a panic
unfoldable pub recover_on_panic : Env → Session → Session
unfolding exit_asap out
recover_on_panic e s = exit_asap e (out 421 " sorry I have an emergency" [] s)

-- `raiseTimeout`
unfoldable pub raise_timeout : Env → Session → Session
unfolding exit_asap out
raise_timeout e s =
    exit_asap e (record (out 420 " Client timeout" [] s) { smtp_response_code = 420 })

-- `Reset`
unfoldable pub reset : Session → Session
reset s = record s {
  envelope = record { mail_from = []; rcpt_to = [] };
  seen_mail = false;
  rcpt_count = 0;
}

abbrev pub set_mail_from : Bytes → Session → Session
set_mail_from path s = record s { envelope = record (s.envelope) { mail_from = path } }

-- the initial state of `NewSMTPServerSession`
unfoldable pub new_session : Bytes → Bytes → Bytes → Bytes → Bool → Queue → Session
new_session uuid remote local input is_tls queue = record {
  uuid = uuid;
  remote_addr = remote;
  local_addr = local;
  inbox = input;
  sent = [];
  tls = is_tls;
  relay_granted = false;
  user = none;
  seen_helo = false;
  seen_mail = false;
  last_client_cmd = [];
  helo = [];
  envelope = record { mail_from = []; rcpt_to = [] };
  last_rcpt_to = [];
  exitasap = false;
  rcpt_count = 0;
  bad_rcpt_to_count = 0;
  vrfy_count = 0;
  smtp_response_code = 0;
  data_bytes = 0;
  exiting = false;
  closed = false;
  current_raw_mail = [];
  queue = queue;
}

-- ===== src/Examples/World.antt =====
-- The surroundings of the examples: a server `mx.org` with the local host `a.org`, no plugin, and
-- a queue whose backend never fails.
use tmail.Prelude.{[], true, false, Bool, none, some, codes, eq_bytes}
use tmail.Directory.{RcptHost, Directory, Query, row, record_not_found, other_error}
use tmail.Queue.{Queue, Backend}
use tmail.Smtpd.Session.{Config, Env, clean}
use tmail.Smtpd.Reader.{Limits}
use tmail.Text.Utils.{found}

abbrev pub backend : Backend
backend = record {
  store_ready = true;
  new_uuid = some (codes "u1");
  put_ok = true;
  created = λ _. true;
  marshalled = λ _. true;
  published = λ _. true;
  raw_removed = true;
  row_removed = true;
  now = 1000;
}

abbrev pub empty_queue : Queue
empty_queue = record { table = []; next_id = 1; store = []; topic = [] }

abbrev pub host_query : Bool → Query RcptHost
host_query true = row (record { hostname = codes "a.org"; is_local = true; is_alias = false })
host_query false = record_not_found

abbrev pub directory : Directory
directory = record {
  rcpthost_get = λ d. host_query (eq_bytes d (codes "a.org"));
  is_valid_local_rcpt = λ a. some (eq_bytes a (codes "bob@a.org"));
  ip_can_relay = λ _. some false;
  user_get = λ _ _. (none, some other_error);
}

abbrev pub config : Config
config = record {
  me = codes "mx.org";
  version = codes "1";
  hide_server_signature = false;
  concurrency_incoming = 20;
  helo_mandatory = true;
  helo_needs_fqn_or_address = false;
  mail_from_localpart_size = true;
  max_data_bytes = 1000;
  max_hops = 10;
  max_rcpt_to = 2;
  max_bad_rcpt_to = 2;
  max_vrfy = 2;
  clamav_enabled = false;
}

abbrev pub env : Env
env = record {
  cfg = config;
  plugins = λ _. [];
  sessions_count = 1;
  parse_ip = λ _. false;
  lookup_mx = λ _. found;
  lookup_host = λ _. found;
  lookup_addr = λ _. none;
  parse_address = λ _. true;
  directory = directory;
  scan_stream = λ _. clean;
  backend = backend;
  load_key_pair = none;
  handshake = none;
  tls_description = codes "TLS";
  now_unix = codes "1";
  now_822 = codes "now";
}

abbrev pub limits : Limits
limits = record { max_hops = 10; max_data_bytes = 1000 }

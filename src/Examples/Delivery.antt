-- ===== src/Examples/Delivery.antt =====
-- The queue and the delivery of messages.
use tmail.Accounts.{Tables}
use tmail.Accounts.Users.{user_get_by_login}
use tmail.Deliverd.Local.{not_piped, lda_ok}
use tmail.Directory.{row, record_not_found}
use tmail.Deliverd.Answers.Paths.{AnswersOnce, process_msg-Answers}
use tmail.Deliverd.Answers.Remote.{GoesOn}
use tmail.Deliverd.Routes.{Route, get_routes, value_or, with_default}
use tmail.Deliverd.Remote.{Client, ClientReply, RemoteWorld, deliver_remote, authenticate}
use tmail.Deliverd.Success.{TakenBy, deliver_remote-TakenBy}
use tmail.Deliverd.Bounces.{BouncedBy, bounce-BouncedBy}
use tmail.Deliverd.Process.{Job, updated, process_msg, raw_mail}
use tmail.Deliverd.Answers.{RendersWell, Answers}
use tmail.Text.Utils.{unix2dos}
use tmail.Text.{split, part, to_lower, split_at_byte, trim_space}
use tmail.Prelude.{
  ◌≤◌, ◌<◌, ◌≡◌, ◌⊎◌, ◌∷◌, ◌==◌, [], true, some, refl, arith, codes, Bytes, eq_bytes, ◌≢◌, false,
  none, ℕ,
}
use tmail.Examples.World.{backend, empty_queue}
use tmail.Queue.{
  Queue, QMessage, DeleteFaults, removed, add_message, ok, delete, store_put, store_get, err,
  Backend,
}
use tmail.Queue.HalfDone.{add_message_half_done}
use tmail.Queue.Add.{Queued, add_message_ok, numbered, mail_of}
use tmail.Queue.Stored.{IsStored, has_raw}
use tmail.Queue.Delete.{delete-IsStored}
use tmail.Message.{Envelope, raw_get_message_id}
use tmail.Deliverd.{World, delay_of, Delivery, bounce, die_ok}
use tmail.Deliverd.Delay.{delay_of_bounds}

abbrev raw : Bytes
raw = codes "Message-ID: <m1>\r\n\r\nhi\r\n"

abbrev mail : Envelope
mail = record { mail_from = codes "al@c.org"; rcpt_to = codes "bob@a.org" ∷ codes "eve@b.org" ∷ [] }

abbrev filled : Queue
filled = (add_message backend raw mail [] empty_queue).0

adds : add_message backend raw mail [] empty_queue ≡ (filled, ok (codes "u1"))
unfolding add_message raw_get_message_id store_put split part to_lower split_at_byte
adds = refl

add_message_ok_example : Queued backend raw mail [] empty_queue filled (codes "u1")
add_message_ok_example = add_message_ok backend raw (codes "u1") mail [] empty_queue filled adds

-- The database fails at the second row.
abbrev failing : Backend
failing = record backend { created = λ i. i == 0 }

finds_id : raw_get_message_id raw ≡ some (codes "m1")
unfolding raw_get_message_id split part to_lower split_at_byte trim_space
finds_id = refl

add_message_half_done_example :
    let (s', r) = add_message failing raw mail [] empty_queue in
    (r ≡ err)
    × (s'.table
        ≡ numbered (mail_of failing (codes "u1") mail [] (codes "m1")) 1 (codes "bob@a.org" ∷ []))
    × (store_get (codes "u1") s'.store ≡ some raw)
    × (s'.topic ≡ [])
add_message_half_done_example =
    add_message_half_done failing raw (codes "u1") (codes "m1") (codes "al@c.org")
      (codes "bob@a.org" ∷ []) (codes "eve@b.org") [] [] empty_queue refl refl refl finds_id
      (λ i h. ground arith) refl (omega arith)

abbrev row_1 : QMessage
row_1 = record {
  id = 1;
  uuid = codes "u1";
  mail_from = codes "al@c.org";
  auth_user = [];
  rcpt_to = codes "bob@a.org";
  message_id = codes "m1";
  host = codes "a.org";
  last_update = 1000;
  added_at = 1000;
  next_delivery_scheduled_at = 1000;
  status = 2;
  delivery_failed_count = 0;
}

abbrev faults : DeleteFaults
faults = record { row_deleted = true; counted = true; removal = removed }

abbrev two_rows : Queue
two_rows = record {
  table = row_1 ∷ record row_1 { id = 2; rcpt_to = codes "eve@b.org" } ∷ [];
  next_id = 3;
  store = (codes "u1", raw) ∷ [];
  topic = [];
}

two_rows-IsStored : IsStored two_rows
unfolding has_raw eq_bytes
two_rows-IsStored = (refl, (refl, tt))

delete-IsStored_example : IsStored (delete faults row_1 two_rows).0
delete-IsStored_example = delete-IsStored faults row_1 two_rows two_rows-IsStored

abbrev world : World
world = record {
  now = 2000;
  now_822 = codes "now";
  queue_lifetime = 10080;
  queue_bounces_lifetime = 1440;
  attempts = 3;
  rand_180 = 10;
  rand_2000 = 700;
  delete_faults = faults;
  saved = true;
  backend = backend;
  render_bounce = λ _ _ _ _. some (codes "Message-ID: <b1>\n\nbounced\n");
}

delay_of_bounds_example :
    (delay_of world < 3600)
    × (3 ≤ 15 → (180 ≤ delay_of world) × (delay_of world ≤ 717))
    × (3 ≤ 274 → (180 ≤ delay_of world) ⊎ ((1599 ≤ delay_of world) × (delay_of world ≤ 3598)))
    × (60 ≤ 3 → 3 ≤ 274 → (1599 ≤ delay_of world) × (delay_of world ≤ 3598))
delay_of_bounds_example = delay_of_bounds world (omega arith) (omega arith)

renders_id :
    (t : Bytes) → codes "Message-ID: <b1>\n\nbounced\n" ≡ t → raw_get_message_id (unix2dos t) ≢ none
unfolding raw_get_message_id unix2dos split part to_lower split_at_byte trim_space
renders_id t h = rw (← h) (λ n. cc)

renders_well : RendersWell world
renders_well = record { readable = λ _ _ _ _ t h. renders_id t (ground arith) }

abbrev route : Route
route = record {
  id = 1;
  host = codes "a.org";
  local_ip = none;
  remote_host = codes "mx.a.org";
  remote_port = some 25;
  priority = some 1;
  smtp_auth_login = none;
  smtp_auth_passwd = none;
  mail_from = none;
  user = none;
}

abbrev reply : ℕ → ClientReply
reply n = record { code = n; failed = false }

-- A client that is taken at every step.
abbrev client : Client
client = record {
  route = route;
  hello = reply 250;
  offers_tls = true;
  start_tls = reply 220;
  offers_cram_md5 = false;
  auth = λ _. reply 235;
  mail = reply 250;
  rcpt = reply 250;
  data_cmd = reply 354;
  copied = true;
  final = reply 250;
}

abbrev remote_world : RemoteWorld
remote_world = record {
  busy = false;
  remote_init = λ d. (d, some []);
  routing = record {
    find = λ _. some (route ∷ []);
    lookup_mx = λ _. none;
    local_ips = codes "_";
    perm = λ _ _. [];
  };
  connect = λ _ _. some client;
  tls_fallback = true;
  dkim_sign = false;
  dkim_get_config = λ _. none;
}

plugins_go_on : GoesOn remote_world
plugins_go_on = record { goes_on = λ d h. cc; silent = λ d. refl }

abbrev job : Job
job = record {
  unmarshalled = some row_1;
  fetch = λ _. updated row_1;
  store_read = raw_mail raw;
  rcpthost_get = λ _. row (record { hostname = codes "a.org"; is_local = true; is_alias = false });
  local = record {
    user_get_by_login = λ _. record_not_found;
    alias_get = λ _. record_not_found;
    catchall_for_domain = λ _. record_not_found;
    run_pipe = λ _ _. not_piped;
    run_lda = λ _ _. lda_ok;
  };
  remote = remote_world;
}

abbrev attempt : Delivery
attempt = record {
  id = codes "d1";
  qmsg = row_1;
  raw_data = none;
  is_local = false;
  success = false;
  queue = two_rows;
  answers = [];
}

job_once : AnswersOnce world renders_well job
job_once = record { readable = λ r h. ground (arith, finds_id); remote_goes_on = plugins_go_on }

process_msg-Answers_example : Answers attempt (process_msg world job attempt)
process_msg-Answers_example = process_msg-Answers world renders_well job job_once row_1 attempt refl

bounce-BouncedBy_example : BouncedBy world attempt (bounce world (codes "no such user") attempt)
bounce-BouncedBy_example = bounce-BouncedBy world (codes "no such user") attempt

delivered : (deliver_remote world remote_world attempt).success ≡ true
unfolding deliver_remote authenticate die_ok get_routes value_or with_default
delivered = refl

deliver_remote-TakenBy_example : TakenBy remote_world
deliver_remote-TakenBy_example =
    deliver_remote-TakenBy world remote_world attempt refl refl delivered

abbrev with_bob : Tables
with_bob = record {
  users =
      record {
        login = codes "bob@a.org";
        passwd = [];
        dove_passwd = [];
        auth_relay = false;
        have_mailbox = true;
        is_catchall = false;
        mailbox_quota = [];
        home = [];
      }
      ∷ [];
  hosts = [];
  aliases = [];
  mailboxes = [];
  relay_ips = [];
}

-- ===== src/Examples/Client.antt =====
-- Tests of the SMTP client, and its theorems at short dialogues.
use tmail.Prelude.{
  Bytes, ◌≡◌, ◌≢◌, ◌∷◌, ◌↔◌, ◌≤◌, [], true, false, none, some, List, codes, refl, ◌+◌,
}
use tmail.Deliverd.Routes.{Route}
use tmail.Client.{
  SmtpClient, Answer, reply, start_tls, extensions, cmd, answered, next_answer, fits,
}
use tmail.Client.Auth.{
  Mechanism, plain_auth, start_plain, auth, start_auth, auth_loop, run_turn, turn, of_next, silent,
}
use tmail.Client.Auth.Secret.{credentials, Trusted, plain_sends}
use tmail.Prelude.{◌⊎◌}
use tmail.Client.Auth.Success.{auth_succeeds}
use tmail.Client.Tls.{start_tls_iff}
use tmail.Client.Connect.{
  ConnectWorld, Connected, Net, dial_greeted, dial_timed_out, new_smtp_client, is_remote_ip_ok,
  set_ip_ko,
}
use tmail.Client.Connect.{
  each, or_next, end_routes, try_route, try_pair, same_family, if_ok, find_ko, judge_ko, dial_pair,
  end_dial, remove_ko, local_ips_of, parse_texts, local_texts, local_or_default, parse_all,
  add_parsed, remote_ips_of, or_lookup, port_of,
}
use tmail.Text.{has_byte}
use tmail.Text.Utils.{is_ipv4, is_string_in_slice}
use tmail.Prelude.{eq_bytes, if◌then◌else◌, ◌==◌}
use tmail.Client.Connect.Ko.{set_ip_ko_iff}
use tmail.Client.Connect.Chosen.{Chosen, new_smtp_client-Chosen}

abbrev client : List Answer → SmtpClient
client answers = record {
  remote_host = codes "mx.b.org";
  ext = none;
  tls = false;
  auth = [];
  sent = [];
  answers = answers;
  closed = false;
}

abbrev me : Bytes
me = codes "a.org"

abbrev tls_answers : List Answer
tls_answers = reply 220 (codes "go on") ∷ reply 250 (codes "mx.b.org\nAUTH PLAIN\nSIZE 10") ∷ []

start_tls_iff_example :
    (((start_tls me (client tls_answers)).0.err ≡ none)
      ↔ ((start_tls me (client tls_answers)).1.tls ≡ true))
    × ((start_tls me (client tls_answers)).0.err ≡ none
        → (start_tls me (client tls_answers)).1.ext
          ≡ some (extensions (start_tls me (client tls_answers)).0.msg))
start_tls_iff_example = start_tls_iff me (client tls_answers)

abbrev encrypted : SmtpClient
encrypted = record (client (reply 235 (codes "welcome") ∷ [])) { tls = true }

-- The tests need no base64.
abbrev same_bytes : Bytes → Bytes
same_bytes s = s

abbrev plain : Mechanism
plain = plain_auth [] (codes "bob") (codes "secret") (codes "mx.b.org")

plain-Answers : (msg : Bytes) → plain.next msg true ≢ some none
unfolding plain_auth
plain-Answers msg h = cc

plain_logs_in : (auth same_bytes plain encrypted).0.err ≡ none
unfolding auth plain_auth start_plain start_auth auth_loop run_turn turn of_next silent cmd
    next_answer answered fits eq_bytes is_string_in_slice
plain_logs_in = refl

abbrev bobs_line : Bytes
bobs_line = credentials same_bytes [] (codes "bob") (codes "secret") (codes "mx.b.org")

plain_sends_example :
    let (o, end) = auth same_bytes plain encrypted in
    ((o.err ≢ none) × (end.sent ≡ codes "QUIT" ∷ []))
    ⊎ (Trusted same_bytes [] (codes "bob") (codes "secret") (codes "mx.b.org") encrypted
        × ((end.sent ≡ bobs_line ∷ [])
            ⊎ ((o.err ≢ none) × (end.sent ≡ bobs_line ∷ codes "*" ∷ codes "QUIT" ∷ []))))
plain_sends_example =
    plain_sends same_bytes [] (codes "bob") (codes "secret") (codes "mx.b.org") encrypted

auth_succeeds_example : (auth same_bytes plain encrypted).0.code ≡ 235
auth_succeeds_example = auth_succeeds same_bytes plain plain-Answers encrypted plain_logs_in

abbrev net : Net
net = record { ko_ips = []; now = 5000; tries = 0 }

abbrev first_ip : Bytes
first_ip = codes "192.0.2.1"

abbrev second_ip : Bytes
second_ip = codes "192.0.2.2"

set_ip_ko_iff_example :
    (((is_remote_ip_ok first_ip (record (set_ip_ko first_ip net) { now = 5900 })).0 ≡ false)
      ↔ (5900 ≤ 5000 + 900))
    × ((other : Bytes)
        → other ≢ first_ip
        → (is_remote_ip_ok other (record (set_ip_ko first_ip net) { now = 5900 })).0
          ≡ (is_remote_ip_ok other (record net { now = 5900 })).0)
set_ip_ko_iff_example = set_ip_ko_iff first_ip net 5900

-- The first address does not answer in time, the second one does.
abbrev connecting : ConnectWorld
connecting = record {
  local_ips = codes "198.51.100.1";
  parse_ip = λ t. if eq_bytes t (codes "mx.b.org") then none else some t;
  lookup_ip = λ host. some (first_ip ∷ second_ip ∷ []);
  perm = λ n. [];
  resolve_local = λ ip. true;
  dial = λ n l r port. if n == 0 then (dial_timed_out, 30) else (dial_greeted, 1);
}

abbrev mx_route : Route
mx_route = record {
  id = 1;
  host = codes "b.org";
  local_ip = none;
  remote_host = codes "mx.b.org";
  remote_port = some 25;
  priority = none;
  smtp_auth_login = none;
  smtp_auth_passwd = none;
  mail_from = none;
  user = none;
}

abbrev second : Connected
second = record { route = mx_route; local = codes "198.51.100.1"; remote = second_ip }

-- The second address was left alone until 100 seconds ago.
abbrev rested_net : Net
rested_net = record net { ko_ips = (second_ip, some 4000) ∷ [] }

abbrev last_net : Net
last_net = (new_smtp_client connecting (mx_route ∷ []) rested_net).1

connects : new_smtp_client connecting (mx_route ∷ []) rested_net ≡ (some second, last_net)
unfolding new_smtp_client each or_next end_routes try_route try_pair same_family is_ipv4 if_ok
    is_remote_ip_ok find_ko judge_ko dial_pair end_dial set_ip_ko remove_ko local_ips_of parse_texts
    local_texts local_or_default has_byte parse_all add_parsed remote_ips_of or_lookup eq_bytes
    port_of
connects = refl

new_smtp_client-Chosen_example : Chosen connecting (mx_route ∷ []) rested_net second last_net
new_smtp_client-Chosen_example =
    new_smtp_client-Chosen connecting rested_net (mx_route ∷ []) second last_net connects

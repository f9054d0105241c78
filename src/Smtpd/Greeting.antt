-- ===== src/Smtpd/Greeting.antt =====
-- The greeting, HELO and EHLO of core/smtpd_session.go.
use tmail.Prelude.{◌&&◌, ◌∷◌, if◌then◌else◌, [], true, false, Bool, List, not, ltb, Bytes, length}
use tmail.Smtpd.Session.{
  Env, Session, out, answer, exec_smtpd_plugins, exit_asap, at_connect, at_helo,
}
use tmail.Text.{join, part, drop}
use tmail.Text.Utils.{Verdict, verdict, unresolved, is_fqn}

unfoldable pub welcome : Env → Session → Session
welcome e s =
    let c = e.cfg in
    if c.hide_server_signature
    then out 220 " %s ESMTP - %s" (c.me ∷ s.uuid ∷ []) s
    else out 220 " %s ESMTP - tmail %s - %s" (c.me ∷ c.version ∷ s.uuid ∷ []) s

unfoldable pub smtp_greeting : Env → Session → Session
unfolding welcome
smtp_greeting e s =
    let (s', stop) = exec_smtpd_plugins e at_connect s in
    if ltb e.cfg.concurrency_incoming e.sessions_count
    then exit_asap e (
        answer 421 " sorry, the maximum number of connections has been reached, try again later %s"
          (s.uuid ∷ []) s)
    else if stop
    then s'
    else welcome e s'

-- what is said of the name given with HELO, and whether the command goes on
unfoldable pub judge_helo : Bytes → Verdict → Session → Session × Bool
judge_helo host (unresolved why) s =
    (answer 404 " unable to resolve %s. Need fqdn or address in helo command" (host ∷ []) s, false)
judge_helo host (verdict false) s = (
  answer 504 " helo command rejected, need fully-qualified hostname or address #5.5.2" [] s,
  false,
)
judge_helo host (verdict true) s = (s, true)

unfoldable pub check_helo : Env → List Bytes → Session → Session × Bool
unfolding judge_helo
check_helo e msg s =
    let host = part 1 msg in
    let strict = e.cfg.helo_needs_fqn_or_address in
    if ltb 1 (length msg)
    then if strict && not (e.parse_ip host)
      then judge_helo host (is_fqn e.lookup_mx e.lookup_host host) s
      else (s, true)
    else if strict
    then (
      answer 504 " helo command rejected, need fully-qualified hostname or address #5.5.2" [] s,
      false,
    )
    else (s, true)

-- the name is kept, and the command is noted
unfoldable pub accept_helo : List Bytes → Session × Bool → Session × Bool
accept_helo msg (s, false) = (s, false)
accept_helo msg (s, true) = (
  record s {
    helo = if ltb 1 (length msg) then join (drop 1 msg) (32 ∷ []) else s.helo;
    seen_helo = true;
  },
  true,
)

-- `heloBase`
unfoldable pub helo_base : Env → List Bytes → Session → Session × Bool
unfolding check_helo accept_helo
helo_base e msg s =
    let (s', stop) = exec_smtpd_plugins e at_helo s in
    if s.seen_helo
    then (out 503 " bad sequence, ehlo already recieved" [] s, false)
    else if stop
    then (s', false)
    else accept_helo msg (check_helo e msg (record s' { helo = [] }))

unfoldable pub smtp_helo : Env → List Bytes → Session → Session
unfolding helo_base
smtp_helo e msg s =
    let (s', cont) = helo_base e msg s in if cont then out 250 " %s" (e.cfg.me ∷ []) s' else s'

unfoldable pub extensions : Env → Session → Session
extensions e s =
    let s' =
      out 250 "-X-PEPPER" []
        (out 250 "-SIZE %d" ((e.cfg.max_data_bytes ∷ []) ∷ []) (out 250 "-%s" (e.cfg.me ∷ []) s)) in
    out 250 " AUTH PLAIN" [] (if s.tls then s' else out 250 "-STARTTLS" [] s')

unfoldable pub smtp_ehlo : Env → List Bytes → Session → Session
unfolding helo_base extensions
smtp_ehlo e msg s = let (s', cont) = helo_base e msg s in if cont then extensions e s' else s'

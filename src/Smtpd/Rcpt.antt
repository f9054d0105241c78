-- ===== src/Smtpd/Rcpt.antt =====
-- RCPT TO of core/smtpd_session.go.
use tmail.Prelude.{
  ◌+◌, ◌&&◌, ◌||◌, ◌∷◌, ◌++◌, ◌==◌, if◌then◌else◌, [], true, false, Bool, none, some, Option, List,
  not, ltb, codes, Bytes, length, eq_bytes,
}
use tmail.Directory.{User, RcptHost, Query, row, record_not_found, query_error}
use tmail.Smtpd.Session.{Env, Session, answer, exec_smtpd_plugins, exit_asap, at_rcptto}
use tmail.Smtpd.Mail.{at_sign}
use tmail.Text.{to_lower, has_prefix, split, join, part, drop, last_part}
use tmail.Text.Utils.{remove_brackets, is_string_in_slice}

-- A part of the command either answers, and the command ends, or hands the session on.
pub data Flow : Type 0 where
  done next : Session → Flow

infixl 5 ◌>>=◌
abbrev pub ◌>>=◌ : Flow → (Session → Flow) → Flow
done s >>= k = done s
next s >>= k = k s

abbrev pub session_of : Flow → Session
session_of (done s) = s
session_of (next s) = s

unfoldable pub bad_rcpt_syntax : List Bytes → Bool
bad_rcpt_syntax msg = length msg == 1 || not (has_prefix (to_lower (part 1 msg)) (codes "to:"))

unfoldable pub rcpt_argument : List Bytes → Bytes
rcpt_argument msg =
    if ltb 3 (length (part 1 msg))
    then join (drop 1 (split (part 1 msg) (58 ∷ []))) (58 ∷ [])
    else if ltb 2 (length msg)
    then part 2 msg
    else []

-- brackets and source route off, and the domain of the server behind a bare postmaster
unfoldable pub full_address : Bytes → Bytes → Bytes
full_address me given =
    let a = last_part (split (remove_brackets given) (58 ∷ [])) in
    if eq_bytes (to_lower a) (codes "postmaster") then a ++ (at_sign ++ me) else a

unfoldable pub lower_domain : List Bytes → Bytes
lower_domain parts = part 0 parts ++ (at_sign ++ to_lower (part 1 parts))

abbrev relay_problem : Session → Session
relay_problem s = answer 455 " 4.3.0 oops, problem with relay access" [] s

unfoldable pub refuse_mailbox : Env → Session → Session
refuse_mailbox e s =
    let s' = record (answer 550 " 5.5.1 Sorry, no mailbox here by that name" [] s) {
      bad_rcpt_to_count = s.bad_rcpt_to_count + 1;
    } in
    let max = e.cfg.max_bad_rcpt_to in
    if not (max == 0) && ltb max s'.bad_rcpt_to_count then exit_asap e s' else s'

unfoldable pub judge_mailbox : Env → Option Bool → Session → Flow
unfolding refuse_mailbox
judge_mailbox e none s = done (relay_problem s)
judge_mailbox e (some true) s = next s
judge_mailbox e (some false) s = done (refuse_mailbox e s)

unfoldable pub judge_rcpthost : Env → Query RcptHost → Session → Flow
unfolding judge_mailbox
judge_rcpthost e query_error s = done (relay_problem s)
judge_rcpthost e record_not_found s = next s
judge_rcpthost e (row h) s =
    let granted = record s { relay_granted = true } in
    if h.is_local
    then judge_mailbox e (e.directory.is_valid_local_rcpt (to_lower s.last_rcpt_to)) granted
    else next granted

-- the domain is looked up as it was given
unfoldable pub check_rcpthost : Env → Bytes → Session → Flow
unfolding judge_rcpthost
check_rcpthost e domain s =
    if s.relay_granted then next s else judge_rcpthost e (e.directory.rcpthost_get domain) s

unfoldable pub user_relay : Option User → Bool
user_relay none = false
user_relay (some u) = u.auth_relay

unfoldable pub check_user : Session → Flow
unfolding user_relay
check_user s = next (if s.relay_granted then s else record s { relay_granted = user_relay s.user })

unfoldable pub judge_ip : Option Bool → Session → Flow
judge_ip none s = done (relay_problem (record s { relay_granted = false }))
judge_ip (some granted) s = next (record s { relay_granted = granted })

unfoldable pub check_ip : Env → Session → Flow
unfolding judge_ip
check_ip e s =
    if s.relay_granted then next s else judge_ip (e.directory.ip_can_relay s.remote_addr) s

unfoldable pub check_granted : Session → Flow
check_granted s =
    if s.relay_granted then next s else done (answer 554 " 5.7.1 Relay access denied" [] s)

unfoldable pub add_rcpt : Session → Session
add_rcpt s =
    let known = is_string_in_slice s.last_rcpt_to s.envelope.rcpt_to in
    answer 250 " ok" [] (
      if known then s else record s {
        envelope = record (s.envelope) { rcpt_to = s.envelope.rcpt_to ++ s.last_rcpt_to ∷ [] };
      })

-- who may have mail relayed, in the order of the source
unfoldable pub check_relay : Env → Bytes → Session → Flow
unfolding check_rcpthost check_user check_ip check_granted
check_relay e domain s = do
  hosted ← check_rcpthost e domain s
  logged ← check_user hosted
  allowed ← check_ip e logged
  check_granted allowed

unfoldable pub relay_rcpt : Env → Bytes → Session × Bool → Session
unfolding check_relay add_rcpt
relay_rcpt e domain (s, true) = s
relay_rcpt e domain (s, false) =
    session_of (do granted ← check_relay e domain s; done (add_rcpt granted))

unfoldable pub bad_address : Session → Session
bad_address s = answer 501 " 5.5.4 Bad email format" [] s

unfoldable pub take_address : Env → Bytes → Session → Session
unfolding relay_rcpt bad_address
take_address e a s =
    let parts = split a at_sign in
    let s' = record s { last_rcpt_to = lower_domain parts; relay_granted = false } in
    if not (e.parse_address a)
    then bad_address (record s { last_rcpt_to = a })
    else if not (length parts == 2)
    then bad_address (record s { last_rcpt_to = a })
    else relay_rcpt e (part 1 parts) (exec_smtpd_plugins e at_rcptto s')

abbrev rcpt_syntax : Session → Session
rcpt_syntax s = answer 501 " 5.5.4 syntax: RCPT TO:<address>" [] s

-- `smtpRcptTo`
unfoldable pub smtp_rcpt_to : Env → List Bytes → Session → Session
unfolding bad_rcpt_syntax rcpt_argument full_address lower_domain take_address
smtp_rcpt_to e msg s0 =
    let s = record s0 { last_rcpt_to = []; rcpt_count = s0.rcpt_count + 1 } in
    let max = e.cfg.max_rcpt_to in
    let given = rcpt_argument msg in
    if not (max == 0) && ltb max s.rcpt_count
    then answer 451 " 4.5.3 max RCPT To commands reached for this sessions" [] s
    else if not s.seen_mail
    then answer 503 " 5.5.1 bad sequence" [] s
    else if bad_rcpt_syntax msg
    then rcpt_syntax s
    else if length given == 0
    then rcpt_syntax s
    else take_address e (full_address e.cfg.me given) s

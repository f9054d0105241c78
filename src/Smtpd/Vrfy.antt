-- ===== src/Smtpd/Vrfy.antt =====
-- VRFY and EXPN of core/smtpd_session.go.
use tmail.Prelude.{
  ◌+◌, ◌&&◌, ◌∷◌, ◌++◌, ◌==◌, if◌then◌else◌, [], true, false, Bool, none, some, Option, List, not,
  ltb, codes, Bytes, length, eq_bytes,
}
use tmail.Directory.{RcptHost, Query, row, record_not_found, query_error}
use tmail.Smtpd.Session.{Env, Session, answer}
use tmail.Smtpd.Mail.{at_sign}
use tmail.Smtpd.Rcpt.{lower_domain}
use tmail.Text.{to_lower, split, part}
use tmail.Text.Utils.{remove_brackets}

abbrev no_mailbox : Bytes → Session → Session
no_mailbox a s = answer 551 " 5.5.1 <%s> no mailbox here by that name" (a ∷ []) s

abbrev internal_failure : Session → Session
internal_failure s = answer 455 " 4.3.0 oops, internal failure" [] s

unfoldable pub verify_mailbox : Bytes → Option Bool → Session → Session
verify_mailbox a none s = internal_failure s
verify_mailbox a (some true) s = answer 250 " <%s>" (a ∷ []) s
verify_mailbox a (some false) s = no_mailbox a s

unfoldable pub verify_host : Env → Bytes → Query RcptHost → Session → Session
unfolding verify_mailbox
verify_host e a query_error s = internal_failure s
verify_host e a record_not_found s = no_mailbox a s
verify_host e a (row h) s =
    if h.is_local
    then verify_mailbox a (e.directory.is_valid_local_rcpt (to_lower a)) s
    else answer 252 " <%s>" (a ∷ []) s

abbrev vrfy_syntax : Session → Session
vrfy_syntax s = answer 551 " 5.5.4 syntax: VRFY <address>" [] s

abbrev vrfy_format : Session → Session
vrfy_format s = answer 551 " 5.5.4 Bad email format" [] s

unfoldable pub with_postmaster : Bytes → Bytes → Bytes
with_postmaster me a =
    if eq_bytes (to_lower a) (codes "postmaster") then a ++ (at_sign ++ me) else a

unfoldable pub verify_address : Env → Bytes → Session → Session
unfolding verify_host lower_domain
verify_address e a s =
    let parts = split a at_sign in
    if not (e.parse_address a)
    then vrfy_format s
    else if not (length parts == 2)
    then vrfy_format s
    else verify_host e (lower_domain parts) (e.directory.rcpthost_get (part 1 parts)) s

-- `smtpVrfy`
unfoldable pub smtp_vrfy : Env → List Bytes → Session → Session
unfolding with_postmaster verify_address
smtp_vrfy e msg s0 =
    let s = record s0 { vrfy_count = s0.vrfy_count + 1 } in
    let max = e.cfg.max_vrfy in
    if not (max == 0) && ltb max s.vrfy_count
    then answer 551 " 5.5.3 too many VRFY commands for this sessions" [] s
    else if not (length msg == 2)
    then vrfy_syntax s
    else if length (part 1 msg) == 0
    then vrfy_syntax s
    else verify_address e (with_postmaster e.cfg.me (remove_brackets (part 1 msg))) s

-- `smtpExpn`
unfoldable pub smtp_expn : Session → Session
smtp_expn s = answer 252 "" [] s

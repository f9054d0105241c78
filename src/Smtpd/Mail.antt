-- ===== src/Smtpd/Mail.antt =====
-- MAIL FROM of core/smtpd_session.go, and RSET.
use Prim.Native.String.{String}
use tmail.Prelude.{
  ◌&&◌, ◌||◌, ◌∷◌, ◌==◌, if◌then◌else◌, [], ℕ, true, false, Bool, none, some, Option, List, not,
  ltb, codes, Bytes, length, eq_bytes,
}
use tmail.Smtpd.Session.{
  Env, Session, Reply, answer, exec_smtpd_plugins, reset, set_mail_from, at_mailpre, at_mailpost,
}
use tmail.Text.{to_lower, has_prefix, split, part, drop}
use tmail.Text.Number.{ℤ, parse_int, exceeds}
use tmail.Text.Utils.{Verdict, verdict, unresolved, is_fqn, remove_brackets}

abbrev pub at_sign : Bytes
at_sign = 64 ∷ []

-- A check answers with the reply that refuses the command, if it does.
abbrev pub Refusal : Type 0
Refusal = Option Reply

abbrev refuse : ℕ → String → List Bytes → Refusal
refuse n text args = some (record { code = n; text = text; args = args })

abbrev mail_syntax : Refusal
mail_syntax = refuse 501 " 5.5.4 Syntax: MAIL FROM:<address> [SIZE]" []

unfoldable pub bad_mail_syntax : List Bytes → Bool
bad_mail_syntax msg =
    length msg == 1
    || (not (has_prefix (to_lower (part 1 msg)) (codes "from:")) || ltb 4 (length msg))

-- the path as it was given: behind the colon, or as a word of its own
unfoldable pub given_path : List Bytes → Bytes
given_path msg =
    if ltb 5 (length (part 1 msg))
    then part 1 (split (part 1 msg) (58 ∷ []))
    else if ltb 2 (length msg)
    then part 2 msg
    else []

-- the words behind the path
unfoldable pub given_extensions : List Bytes → List Bytes
given_extensions msg = if ltb 5 (length (part 1 msg)) then drop 2 msg else drop 3 msg

unfoldable pub check_size : ℕ → Option ℤ → Refusal
check_size max none = refuse 501 " 5.5.4 Invalid arguments" []
check_size max (some size) =
    if exceeds size max then refuse 552 " message exceeds fixed maximum message size" [] else none

unfoldable pub check_extension : ℕ → List Bytes → Refusal
unfolding check_size
check_extension max ext =
    if not (length ext == 2)
    then mail_syntax
    else if not (eq_bytes (to_lower (part 0 ext)) (codes "size"))
    then refuse 501 " 5.5.4 Invalid arguments" []
    else if max == 0
    then none
    else check_size max (parse_int (part 1 ext))

unfoldable pub check_extensions : ℕ → List Bytes → Refusal
unfolding check_extension
check_extensions max [] = none
check_extensions max (x ∷ []) = check_extension max (split x (b'=' ∷ []))
check_extensions max (x ∷ (y ∷ xs)) = mail_syntax

unfoldable pub judge_domain : Bytes → Verdict → Refusal
judge_domain domain (unresolved why) =
    refuse 451 " unable to resolve %s due to timeout or srv failure" (domain ∷ [])
judge_domain domain (verdict false) =
    refuse 550 " 5.5.2 need fully-qualified hostname for domain part" []
judge_domain domain (verdict true) = none

unfoldable pub check_parts : Env → List Bytes → Refusal
unfolding judge_domain
check_parts e parts =
    if length parts == 1
    then refuse 501 " 5.1.7 Invalid address" []
    else if e.cfg.mail_from_localpart_size && ltb 64 (length (part 0 parts))
    then refuse 550 " local part of reverse path MUST be lower than 65 char (RFC 5321 4.5.3.1.1)" []
    else if ltb 255 (length (part 1 parts))
    then refuse 550 " domain part of reverse path MUST be lower than 255 char (RFC 5321 4.5.3.1.2)"
        []
    else judge_domain (part 1 parts) (is_fqn e.lookup_mx e.lookup_host (part 1 parts))

-- An empty path is the null reverse path of a bounce.
unfoldable pub check_reverse_path : Env → Bytes → Refusal
unfolding check_parts
check_reverse_path e path =
    if length path == 0
    then none
    else if ltb 256 (length path)
    then refuse 550 " reverse path must be lower than 255 char (RFC 5321 4.5.1.3.1)" []
    else check_parts e (split path at_sign)

unfoldable pub answer_reply : Reply → Session → Session
answer_reply r s = answer r.code r.text r.args s

unfoldable pub accept_mail : Env → Session → Session
accept_mail e s =
    answer 250 " ok" [] (record ((exec_smtpd_plugins e at_mailpost s).0) { seen_mail = true })

unfoldable pub finish_path : Env → Refusal → Session → Session
unfolding answer_reply accept_mail
finish_path e (some r) s = answer_reply r s
finish_path e none s = accept_mail e s

-- behind the check of the extensions
unfoldable pub take_path : Env → Refusal → Session → Session
unfolding answer_reply finish_path check_reverse_path
take_path e (some r) s = answer_reply r s
take_path e none s =
    let path = remove_brackets s.envelope.mail_from in
    finish_path e (check_reverse_path e path) (set_mail_from path s)

-- `smtpMailFrom`
unfoldable pub smtp_mail_from : Env → List Bytes → Session → Session
unfolding bad_mail_syntax given_path given_extensions check_extensions take_path
smtp_mail_from e msg s0 =
    let s = reset s0 in
    if e.cfg.helo_mandatory && not s.seen_helo
    then answer 503 " 5.5.2 Send hello first" [] s
    else if bad_mail_syntax msg
    then answer 501 " 5.5.4 Syntax: MAIL FROM:<address> [SIZE]" [] s
    else take_path e (check_extensions e.cfg.max_data_bytes (given_extensions msg))
        (set_mail_from (given_path msg) (exec_smtpd_plugins e at_mailpre s).0)

-- `rset`
unfoldable pub rset : Session → Session
rset s = answer 250 " 2.0.0 ok" [] (reset s)

-- `noop`
unfoldable pub noop : Session → Session
noop s = answer 250 " 2.0.0 ok" [] s

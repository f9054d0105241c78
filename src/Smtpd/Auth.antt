-- ===== src/Smtpd/Auth.antt =====
-- STARTTLS, AUTH and QUIT of core/smtpd_session.go.
use tmail.Prelude.{◌∷◌, ◌==◌, if◌then◌else◌, [], true, false, Bool, none, some, Option, List, Bytes}
use tmail.Directory.{User, UserError, no_such_user, wrong_password, other_error}
use tmail.Smtpd.Session.{
  Env, Session, answer, exec_smtpd_plugins, exit_asap, recover_on_panic, at_quit,
}
use tmail.Text.{lf, split, part, drop}
use tmail.Text.Base64.{decode}

-- `smtpQuit`
unfoldable pub smtp_quit : Env → Session → Session
smtp_quit e s = exit_asap e (answer 221 " 2.0.0 Bye" [] (exec_smtpd_plugins e at_quit s).0)

-- with the result of the handshake: what was read or said before stays as it is
unfoldable pub end_handshake : Option Bytes → Session → Session
end_handshake none s = record s { tls = true; seen_helo = false }
end_handshake (some why) s = answer 454 " - TLS handshake failed: %s" (why ∷ []) s

unfoldable pub offer_tls : Env → Option Bytes → Session → Session
unfolding end_handshake
offer_tls e none s = end_handshake e.handshake (answer 220 " Ready to start TLS nego" [] s)
offer_tls e (some why) s = answer 454 " TLS failed unable to load server keys: %s" (why ∷ []) s

-- `smtpStartTLS`; the keys and the handshake give an error message or none
unfoldable pub smtp_start_tls : Env → Session → Session
unfolding offer_tls
smtp_start_tls e s =
    if s.tls
    then answer 454 " - transaction is already over SSL/TLS" [] s
    else offer_tls e e.load_key_pair s

unfoldable pub malformed : Env → Session → Session
malformed e s = exit_asap e (answer 501 " malformed auth input (#5.5.4)" [] s)

-- what stands behind the first LF, if there is one
unfoldable pub behind_line : Bytes → Option Bytes
behind_line [] = none
behind_line (c ∷ s) = let rest = behind_line s in if c == lf then some s else rest

unfoldable pub all_empty : List Bytes → Bool
all_empty [] = true
all_empty ([] ∷ ps) = all_empty ps
all_empty ((c ∷ p) ∷ ps) = false

-- with the pair that `UserGet` returns: the user is kept also where there is an error
unfoldable pub judge_user : Env → Session → Option User × Option UserError → Session
judge_user e s (u, none) = answer 235 " ok, go ahead (#2.0.0)" [] (record s { user = u })
judge_user e s (u, some no_such_user) =
    exit_asap e
      (answer 535 " authentication failed - No such user (#5.7.1)" [] (record s { user = u }))
judge_user e s (u, some wrong_password) =
    exit_asap e (answer 535 " authentication failed (#5.7.1)" [] (record s { user = u }))
judge_user e s (u, some other_error) =
    exit_asap e (answer 454 " oops, problem with auth (#4.3.0)" [] (record s { user = u }))

-- the parts between the zero bytes; a byte of a fourth part is a panic
unfoldable pub use_credentials : Env → Option Bytes → Session → Session
unfolding malformed all_empty judge_user
use_credentials e none s = malformed e s
use_credentials e (some auth_data) s =
    let t = split auth_data (0 ∷ []) in
    if all_empty (drop 3 t)
    then judge_user e s (e.directory.user_get (part 1 t) (part 2 t))
    else recover_on_panic e s

-- The line that is read after "334" is not kept: what is decoded is the empty string.
unfoldable pub end_auth_line : Env → Option Bytes → Session → Session
unfolding malformed use_credentials
end_auth_line e none s = malformed e (record s { inbox = [] })
end_auth_line e (some rest) s = use_credentials e (decode []) (record s { inbox = rest })

unfoldable pub auth_words : Env → List Bytes → Session → Session
unfolding malformed use_credentials end_auth_line behind_line
auth_words e (a ∷ (b ∷ (c ∷ []))) s = use_credentials e (decode c) s
auth_words e (a ∷ (b ∷ [])) s = end_auth_line e (behind_line s.inbox) (answer 334 " " [] s)
auth_words e _ s = malformed e s

-- `smtpAuth`
unfoldable pub smtp_auth : Env → Bytes → Session → Session
unfolding auth_words
smtp_auth e raw_msg s = auth_words e (split raw_msg (32 ∷ [])) s

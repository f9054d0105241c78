-- ===== src/Deliverd/Remote.antt =====
-- core/deliverd_remote.go: delivery to a remote host.
-- The connection, the plugins at `remoteinit` and DKIM are parameters. A client is the
-- list of the replies that it will get. Messages of errors are given without the ids, the addresses
-- and the replies that the source adds. The addresses and the codes that are kept for logging are
-- left out.
use tmail.Prelude.{
  Bytes, ◌&&◌, ◌∷◌, ◌++◌, ◌==◌, if◌then◌else◌, [], ℕ, true, false, Bool, none, some, Option, List,
  not, ltb, codes, length,
}
use tmail.Deliverd.{Delivery, World, requeue, die_temp, die_perm, die_ok, handle_smtp_error}
use tmail.Deliverd.Local.{raw_of}
use tmail.Deliverd.Routes.{Route, RouteWorld, get_routes}
use tmail.Text.{split_at_byte, part, crlf}

-- The reply to a command, and whether the client takes it for an error.
pub record ClientReply : Type 0 where
  pub code : ℕ
  pub failed : Bool

pub record Client : Type 0 where
  pub route : Route
  pub hello : ClientReply
  pub offers_tls : Bool
  pub start_tls : ClientReply
  pub offers_cram_md5 : Bool
  pub auth : Bool → ClientReply  -- with CRAM-MD5 or PLAIN
  pub mail : ClientReply
  pub rcpt : ClientReply
  pub data_cmd : ClientReply
  pub copied : Bool
  pub final : ClientReply

pub record RemoteWorld : Type 0 where
  pub busy : Bool
  pub remote_init : Delivery → Delivery × Option (List Route)  -- `none` where a plugin gives false
  pub routing : RouteWorld
  pub connect : Bool → List Route → Option Client  -- again, without TLS, or for the first time
  pub tls_fallback : Bool
  pub dkim_sign : Bool
  pub dkim_get_config : Bytes → Option (Option (Bytes → Bytes))

-- the reply to the message itself
unfoldable pub end_remote : World → ClientReply → Delivery → Delivery
end_remote w final d =
    if final.failed
    then die_temp w (codes "DATA command failed") d
    else if final.code == 250
    then die_ok w d
    else handle_smtp_error w final.code (codes "DATA command failed") d

unfoldable pub signed_raw : Bytes → Option (Option (Bytes → Bytes)) → Option Bytes
signed_raw raw none = none
signed_raw raw (some none) = some raw
signed_raw raw (some (some sign)) = some (sign raw)

-- the block under `if Cfg.GetDeliverdDkimSign()`; `none` is an error
unfoldable pub sign_raw : RemoteWorld → Bytes → Bytes → Option Bytes
unfolding signed_raw
sign_raw r mail_from raw =
    let user_domain = split_at_byte 64 mail_from in
    if r.dkim_sign && length user_domain == 2
    then signed_raw raw (r.dkim_get_config (part 1 user_domain))
    else some raw

unfoldable pub send_raw : World → Client → Option Bytes → Delivery → Delivery
unfolding end_remote
send_raw w c none d = die_temp w (codes "unable to get DKIM config for domain") d
send_raw w c (some raw) d =
    let d' = record d { raw_data = some raw } in
    if c.copied
    then end_remote w c.final d'
    else die_temp w (codes "unable to copy dataBuf to dataPipe") d'

unfoldable pub received_remote : World → Delivery → Bytes
unfolding raw_of
received_remote w d =
    codes "Received: tmail deliverd remote "
    ++ (d.id ++ (codes "; " ++ (w.now_822 ++ (crlf ++ raw_of d.raw_data))))

-- MAIL, RCPT and DATA
unfoldable pub transact : World → RemoteWorld → Client → Delivery → Delivery
unfolding send_raw sign_raw received_remote
transact w r c d =
    if c.mail.failed
    then handle_smtp_error w c.mail.code (codes "MAIL FROM failed") d
    else if c.rcpt.failed
    then handle_smtp_error w c.rcpt.code (codes "RCPT TO failed") d
    else if c.data_cmd.failed
    then handle_smtp_error w c.data_cmd.code (codes "DATA command failed") d
    else send_raw w c (sign_raw r d.qmsg.mail_from (received_remote w d))
        (record d { raw_data = some (received_remote w d) })

-- The login and the password are given; only the login must not be empty.
unfoldable pub has_credentials : Option Bytes → Option Bytes → Bool
has_credentials (some login) (some passwd) = not (length login == 0)
has_credentials _ _ = false

unfoldable pub authenticate : World → RemoteWorld → Client → Delivery → Delivery
unfolding transact has_credentials
authenticate w r c d =
    if has_credentials c.route.smtp_auth_login c.route.smtp_auth_passwd
      && (c.auth c.offers_cram_md5).failed
    then die_perm w (codes "AUTH failed") d
    else transact w r c d

-- with the client that is connected after a handshake failed
unfoldable pub fall_back : World → RemoteWorld → Option Client → Delivery → Delivery
unfolding authenticate
fall_back w r none d = die_temp w (codes "unable to get client") d
fall_back w r (some c) d =
    if c.hello.failed
    then if ltb 499 c.hello.code
      then die_perm w (codes "HELO failed") d
      else die_temp w (codes "HELO failed") d
    else authenticate w r c d

unfoldable pub negotiate : World → RemoteWorld → List Route → Client → Delivery → Delivery
unfolding authenticate fall_back
negotiate w r routes c d =
    if c.offers_tls && c.start_tls.failed
    then if r.tls_fallback
      then fall_back w r (r.connect true routes) d
      else die_temp w (codes "TLS negociation failed") d
    else authenticate w r c d

-- EHLO fails by its code only from 400 on.
unfoldable pub greet : World → RemoteWorld → List Route → Option Client → Delivery → Delivery
unfolding negotiate
greet w r routes none d = die_temp w (codes "unable to get client") d
greet w r routes (some c) d =
    if c.hello.failed && ltb 499 c.hello.code
    then die_perm w (codes "HELO failed") d
    else if c.hello.failed && ltb 399 c.hello.code
    then die_temp w (codes "HELO failed") d
    else negotiate w r routes c d

unfoldable pub with_routes : World → RemoteWorld → Option (List Route) → Delivery → Delivery
unfolding greet
with_routes w r none d = die_temp w (codes "unable to get route to host") d
with_routes w r (some []) d = die_temp w (codes "no route to host") d
with_routes w r (some (route ∷ routes)) d =
    greet w r (route ∷ routes) (r.connect false (route ∷ routes)) d

unfoldable pub after_init : World → RemoteWorld → Delivery × Option (List Route) → Delivery
unfolding with_routes
after_init w r (d, none) = d
after_init w r (d, some []) =
    with_routes w r (get_routes r.routing d.qmsg.mail_from d.qmsg.host d.qmsg.auth_user) d
after_init w r (d, some (route ∷ routes)) = with_routes w r (some (route ∷ routes)) d

-- `deliverRemote`
unfoldable pub deliver_remote : World → RemoteWorld → Delivery → Delivery
unfolding after_init
deliver_remote w r d = if r.busy then requeue w 2 d else after_init w r (r.remote_init d)

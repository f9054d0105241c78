-- ===== src/Deliverd/Answers/Remote.antt =====
-- One answer on every path of `deliverRemote`.
use tmail.Prelude.{
  Bytes, ◌≡◌, ◌≢◌, ◌∷◌, [], ℕ, true, false, none, some, Option, List, refl, arith, codes,
}
use tmail.Deliverd.{Delivery, World, handle_smtp_error}
use tmail.Deliverd.Routes.{Route, get_routes}
use tmail.Deliverd.Remote.{
  RemoteWorld, Client, ClientReply, end_remote, send_raw, transact, authenticate, fall_back,
  negotiate, greet, with_routes, after_init, deliver_remote, sign_raw, received_remote,
}
use tmail.Deliverd.Answers.{
  Answers, RendersWell, die_perm-Answers, die_temp-Answers, requeue-Answers, die_ok-Answers,
}

-- The plugins at `remoteinit` let the delivery go on, and say nothing to the message bus.
pub record GoesOn (r : RemoteWorld) : Type 0 where
  pub goes_on : (d : Delivery) → (r.remote_init d).1 ≢ none
  pub silent : (d : Delivery) → (r.remote_init d).0.answers ≡ d.answers

module _ (w : World) (good : RendersWell w) where
  handle_smtp_error-Answers :
      (code : ℕ) (msg : Bytes) (d : Delivery) → Answers d (handle_smtp_error w code msg d)
  unfolding handle_smtp_error
  handle_smtp_error-Answers code msg d =
      ground (arith, die_perm-Answers w good msg d, die_temp-Answers w good msg d)

  end_remote-Answers : (final : ClientReply) (d : Delivery) → Answers d (end_remote w final d)
  unfolding end_remote
  end_remote-Answers final d =
      let msg = codes "DATA command failed" in
      ground (
        arith,
        die_temp-Answers w good msg d,
        die_ok-Answers w d,
        handle_smtp_error-Answers final.code msg d,
      )

  send_raw-Answers :
      (c : Client) (raw : Option Bytes) (d : Delivery) → Answers d (send_raw w c raw d)
  unfolding send_raw
  send_raw-Answers c none d =
      die_temp-Answers w good (codes "unable to get DKIM config for domain") d
  send_raw-Answers c (some raw) d =
      let d' = record d { raw_data = some raw } in
      ground (
        arith,
        end_remote-Answers c.final d',
        die_temp-Answers w good (codes "unable to copy dataBuf to dataPipe") d',
      )

  module _ (r : RemoteWorld) where
    transact-Answers : (c : Client) (d : Delivery) → Answers d (transact w r c d)
    unfolding transact
    transact-Answers c d = ground (
      arith,
      handle_smtp_error-Answers c.mail.code (codes "MAIL FROM failed") d,
      handle_smtp_error-Answers c.rcpt.code (codes "RCPT TO failed") d,
      handle_smtp_error-Answers c.data_cmd.code (codes "DATA command failed") d,
      send_raw-Answers c (sign_raw r d.qmsg.mail_from (received_remote w d))
          (record d { raw_data = some (received_remote w d) }),
    )

    authenticate-Answers : (c : Client) (d : Delivery) → Answers d (authenticate w r c d)
    unfolding authenticate
    authenticate-Answers c d =
        ground (arith, die_perm-Answers w good (codes "AUTH failed") d, transact-Answers c d)

    fall_back-Answers : (c : Option Client) (d : Delivery) → Answers d (fall_back w r c d)
    unfolding fall_back
    fall_back-Answers none d = die_temp-Answers w good (codes "unable to get client") d
    fall_back-Answers (some c) d = ground (
      arith,
      die_perm-Answers w good (codes "HELO failed") d,
      die_temp-Answers w good (codes "HELO failed") d,
      authenticate-Answers c d,
    )

    negotiate-Answers :
        (routes : List Route) (c : Client) (d : Delivery) → Answers d (negotiate w r routes c d)
    unfolding negotiate
    negotiate-Answers routes c d = ground (
      arith,
      fall_back-Answers (r.connect true routes) d,
      die_temp-Answers w good (codes "TLS negociation failed") d,
      authenticate-Answers c d,
    )

    greet-Answers :
        (routes : List Route) (c : Option Client) (d : Delivery) → Answers d (greet w r routes c d)
    unfolding greet
    greet-Answers routes none d = die_temp-Answers w good (codes "unable to get client") d
    greet-Answers routes (some c) d = ground (
      arith,
      die_perm-Answers w good (codes "HELO failed") d,
      die_temp-Answers w good (codes "HELO failed") d,
      negotiate-Answers routes c d,
    )

    with_routes-Answers :
        (routes : Option (List Route)) (d : Delivery) → Answers d (with_routes w r routes d)
    unfolding with_routes
    with_routes-Answers none d = die_temp-Answers w good (codes "unable to get route to host") d
    with_routes-Answers (some []) d = die_temp-Answers w good (codes "no route to host") d
    with_routes-Answers (some (x ∷ xs)) d = greet-Answers (x ∷ xs) (r.connect false (x ∷ xs)) d

    after_init-Answers :
        (x : Delivery × Option (List Route)) → x.1 ≢ none → Answers x.0 (after_init w r x)
    unfolding after_init
    after_init-Answers (d, none) n = absurd (n refl)
    after_init-Answers (d, some []) n =
        with_routes-Answers (get_routes r.routing d.qmsg.mail_from d.qmsg.host d.qmsg.auth_user) d
    after_init-Answers (d, some (x ∷ xs)) n = with_routes-Answers (some (x ∷ xs)) d

    pub deliver_remote-Answers : GoesOn r → (d : Delivery) → Answers d (deliver_remote w r d)
    unfolding deliver_remote
    deliver_remote-Answers g d = ground (
      arith,
      requeue-Answers w 2 d,
      after_init-Answers (r.remote_init d) (g.goes_on d),
      g.silent d,
    )

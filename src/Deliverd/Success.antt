-- ===== src/Deliverd/Success.antt =====
-- When a delivery to a remote host counts as done.
use tmail.Deliverd.Keeps.{requeue-Keeps, die_perm-Keeps, die_temp-Keeps, handle_smtp_error-Keeps}
use tmail.Prelude.{
  Bytes, ◌≡◌, ◌&&◌, ◌∷◌, [], true, false, Bool, none, some, Option, List, refl, inl, inr, arith,
  codes, Bool-cases,
}
use tmail.Deliverd.{Delivery, World}
use tmail.Deliverd.Routes.{Route, get_routes}
use tmail.Deliverd.Remote.{
  RemoteWorld, Client, ClientReply, end_remote, send_raw, transact, authenticate, fall_back,
  negotiate, greet, with_routes, after_init, deliver_remote, received_remote, sign_raw,
}

-- The remote host took the sender, the recipient and the whole message, and answered 250 to it.
pub record IsTaken (c : Client) : Type 0 where
  pub sender_taken : c.mail.failed ≡ false
  pub rcpt_taken : c.rcpt.failed ≡ false
  pub data_taken : c.data_cmd.failed ≡ false
  pub all_copied : c.copied ≡ true
  pub reply_read : c.final.failed ≡ false
  pub answered : c.final.code ≡ 250

-- A client that was connected took the message.
pub record TakenBy (r : RemoteWorld) : Type 0 where
  pub client : Client
  pub again : Bool
  pub routes : List Route
  pub connected : r.connect again routes ≡ some client
  pub taken : IsTaken client

module _ (w : World) where
  end_remote-250 :
      (final : ClientReply) (d : Delivery)
      → d.success ≡ false
      → (end_remote w final d).success ≡ true
      → (final.failed ≡ false) × (final.code ≡ 250)
  unfolding end_remote
  end_remote-250 final d f h =
      let msg = codes "DATA command failed" in
      ground (arith, die_temp-Keeps w msg d, handle_smtp_error-Keeps w final.code msg d)

  send_raw-250 :
      (c : Client) (raw : Option Bytes) (d : Delivery)
      → d.success ≡ false
      → (send_raw w c raw d).success ≡ true
      → (c.copied ≡ true) × (c.final.failed ≡ false) × (c.final.code ≡ 250)
  unfolding send_raw
  send_raw-250 c none d f h =
      ground (arith, die_temp-Keeps w (codes "unable to get DKIM config for domain") d)
  send_raw-250 c (some raw) d f h =
      let d' = record d { raw_data = some raw } in
      ground (
        arith,
        end_remote-250 c.final d' f,
        die_temp-Keeps w (codes "unable to copy dataBuf to dataPipe") d',
      )

  module _ (r : RemoteWorld) where
    transact-IsTaken :
        (c : Client) (d : Delivery)
        → d.success ≡ false
        → (transact w r c d).success ≡ true
        → IsTaken c
    unfolding transact
    transact-IsTaken c d f h =
        let raw = received_remote w d in
        let rest =
          send_raw-250 c (sign_raw r d.qmsg.mail_from raw) (record d { raw_data = some raw }) f in
        let (a, b, e, (copied, read, answered)) : (c.mail.failed ≡ false)
            × (c.rcpt.failed ≡ false)
            × (c.data_cmd.failed ≡ false)
            × ((c.copied ≡ true) × (c.final.failed ≡ false) × (c.final.code ≡ 250)) =
          ground (
            arith,
            handle_smtp_error-Keeps w c.mail.code (codes "MAIL FROM failed") d,
            handle_smtp_error-Keeps w c.rcpt.code (codes "RCPT TO failed") d,
            handle_smtp_error-Keeps w c.data_cmd.code (codes "DATA command failed") d,
            rest,
          ) in
        record {
          sender_taken = a;
          rcpt_taken = b;
          data_taken = e;
          all_copied = copied;
          reply_read = read;
          answered = answered;
        }

    authenticate-IsTaken :
        (c : Client) (d : Delivery)
        → d.success ≡ false
        → (authenticate w r c d).success ≡ true
        → IsTaken c
    unfolding authenticate
    authenticate-IsTaken c d f h =
        ground (arith, die_perm-Keeps w (codes "AUTH failed") d, transact-IsTaken c d f)

    fall_back-TakenBy :
        (routes : List Route) (o : Option Client) (d : Delivery)
        → r.connect true routes ≡ o
        → d.success ≡ false
        → (fall_back w r o d).success ≡ true
        → TakenBy r
    unfolding fall_back
    fall_back-TakenBy routes none d e f h =
        ground (arith, die_temp-Keeps w (codes "unable to get client") d)
    fall_back-TakenBy routes (some c) d e f h = record {
      client = c;
      again = true;
      routes = routes;
      connected = e;
      taken = ground (
        arith,
        die_perm-Keeps w (codes "HELO failed") d,
        die_temp-Keeps w (codes "HELO failed") d,
        authenticate-IsTaken c d f,
      );
    }

    negotiate-TakenBy :
        (routes : List Route) (c : Client) (d : Delivery)
        → r.connect false routes ≡ some c
        → d.success ≡ false
        → (negotiate w r routes c d).success ≡ true
        → TakenBy r
    unfolding negotiate
    negotiate-TakenBy routes c d e f h = elim (Bool-cases (c.offers_tls && c.start_tls.failed)) [
      | inl refused ↦ elim (Bool-cases r.tls_fallback) [
        | inl retry ↦
            fall_back-TakenBy routes (r.connect true routes) d refl f (rw (refused, retry) at h)
        | inr stop ↦ ground (arith, die_temp-Keeps w (codes "TLS negociation failed") d)
      ]
      | inr agreed ↦ record {
        client = c;
        again = false;
        routes = routes;
        connected = e;
        taken = authenticate-IsTaken c d f (rw agreed at h);
      }
    ]

    greet-TakenBy :
        (routes : List Route) (o : Option Client) (d : Delivery)
        → r.connect false routes ≡ o
        → d.success ≡ false
        → (greet w r routes o d).success ≡ true
        → TakenBy r
    unfolding greet
    greet-TakenBy routes none d e f h =
        ground (arith, die_temp-Keeps w (codes "unable to get client") d)
    greet-TakenBy routes (some c) d e f h = ground (
      arith,
      die_perm-Keeps w (codes "HELO failed") d,
      die_temp-Keeps w (codes "HELO failed") d,
      negotiate-TakenBy routes c d e f,
    )

    with_routes-TakenBy :
        (o : Option (List Route)) (d : Delivery)
        → d.success ≡ false
        → (with_routes w r o d).success ≡ true
        → TakenBy r
    unfolding with_routes
    with_routes-TakenBy none d f h =
        ground (arith, die_temp-Keeps w (codes "unable to get route to host") d)
    with_routes-TakenBy (some []) d f h =
        ground (arith, die_temp-Keeps w (codes "no route to host") d)
    with_routes-TakenBy (some (x ∷ xs)) d f h =
        greet-TakenBy (x ∷ xs) (r.connect false (x ∷ xs)) d refl f h

    after_init-TakenBy :
        (x : Delivery × Option (List Route))
        → x.0.success ≡ false
        → (after_init w r x).success ≡ true
        → TakenBy r
    unfolding after_init
    after_init-TakenBy (d, none) f h = cc
    after_init-TakenBy (d, some []) f h =
        with_routes-TakenBy (get_routes r.routing d.qmsg.mail_from d.qmsg.host d.qmsg.auth_user) d f
          h
    after_init-TakenBy (d, some (x ∷ xs)) f h = with_routes-TakenBy (some (x ∷ xs)) d f h

    -- A remote delivery is a success only if a client that was connected had the sender, the
    -- recipient and the whole message accepted, and was answered 250. It is no success to begin
    -- with, and the plugins at `remoteinit` do not make it one.
    pub deliver_remote-TakenBy :
        (d : Delivery)
        → d.success ≡ false
        → (r.remote_init d).0.success ≡ false
        → (deliver_remote w r d).success ≡ true
        → TakenBy r
    unfolding deliver_remote
    deliver_remote-TakenBy d f g h =
        ground (arith, requeue-Keeps w 2 d, after_init-TakenBy (r.remote_init d) g)

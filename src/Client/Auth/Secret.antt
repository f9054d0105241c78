-- ===== src/Client/Auth/Secret.antt =====
-- What `Auth` with PLAIN sends, and when.
use tmail.Prelude.{
  Bytes, ◌≡◌, ◌≢◌, ◌⊎◌, ◌∷◌, ◌++◌, ◌==◌, ◌||◌, [], true, none, some, Option, List, refl, codes, inl,
  inr, Bool-cases, arith, append_assoc, not, eq_bytes, eq_bytes_iff, ◌∙◌,
}
use tmail.Text.Base64.{decode}
use tmail.Text.Utils.{is_string_in_slice}
use tmail.Client.{SmtpClient, Outcome, ClientError, Answer, cmd, quit}
use tmail.Client.Auth.{
  Mechanism, Turn, fails, ends, sends, of_next, of_challenge, turn, silent, run_turn, auth_loop,
  start_auth, auth, plain_auth, start_plain, abort_auth, ServerInfo,
}

-- Nothing more is sent, or there is an error and the exchange is given up.
abbrev Stops : SmtpClient → Outcome × SmtpClient → Type 0
Stops c x =
    (x.1.sent ≡ c.sent) ⊎ ((x.0.err ≢ none) × (x.1.sent ≡ c.sent ++ codes "*" ∷ codes "QUIT" ∷ []))

abort_auth-sent : (c : SmtpClient) → (abort_auth c).sent ≡ c.sent ++ codes "*" ∷ codes "QUIT" ∷ []
unfolding abort_auth quit cmd
abort_auth-sent c = append_assoc c.sent (codes "*" ∷ []) (codes "QUIT" ∷ [])

run_turn-Stops :
    (more : Bytes → Outcome × SmtpClient) (t : Turn) (e : Option ClientError) (o : Outcome)
    (c : SmtpClient)
    → ((r : Bytes) → t ≢ sends r)
    → Stops c (run_turn more t e o c)
unfolding run_turn silent
run_turn-Stops more t (some e) o c k = inl refl
run_turn-Stops more (fails e) none o c k = inr ((λ h. cc), abort_auth-sent c)
run_turn-Stops more ends none o c k = inl refl
run_turn-Stops more (sends r) none o c k = absurd (k r refl)

module _ (encode : Bytes → Bytes) (identity username password host : Bytes) where
  abbrev plain : Mechanism
  plain = plain_auth identity username password host

  of_challenge-ne-sends : (d : Option Bytes) (r : Bytes) → of_challenge plain d ≢ sends r
  unfolding of_challenge of_next plain_auth
  of_challenge-ne-sends none r h = cc
  of_challenge-ne-sends (some msg) r h = cc

  turn-ne-sends : (o : Outcome) (r : Bytes) → turn plain o ≢ sends r
  unfolding turn of_next plain_auth
  turn-ne-sends o r h = elim (Bool-cases (o.code == 334)) [
    | inl asked ↦ of_challenge-ne-sends (decode o.msg) r (unfold plain_auth in rw asked at h)
    | inr other ↦ elim (Bool-cases (o.code == 235)) [
      | inl ok ↦ cc (rw (other, ok) at h)
      | inr bad ↦ cc (rw (other, bad) at h)
    ]
  ]

  auth_loop-Stops :
      (l : List Answer) (o : Outcome) (c : SmtpClient) → Stops c (auth_loop encode plain l o c)
  unfolding auth_loop
  auth_loop-Stops [] o c = run_turn-Stops _ (turn plain o) o.err o c (turn-ne-sends o)
  auth_loop-Stops (a ∷ rest) o c = run_turn-Stops _ (turn plain o) o.err o c (turn-ne-sends o)

  abbrev pub credentials : Bytes
  credentials = codes "AUTH PLAIN " ++ encode (identity ++ (0 ∷ username ++ (0 ∷ password)))

  -- The credentials go over TLS or to a host that offers PLAIN, and to the host they are for.
  abbrev pub Trusted : SmtpClient → Type 0
  Trusted c =
      ((c.tls ≡ true) ⊎ (is_string_in_slice (codes "PLAIN") c.auth ≡ true)) × (c.remote_host ≡ host)

  start_plain-cases :
      (c : SmtpClient)
      → let s : ServerInfo = record { name = c.remote_host; tls = c.tls; auth = c.auth } in
        (start_plain identity username password host s ≡ none)
        ⊎ (Trusted c
            × (start_plain identity username password host s
                ≡ some (codes "PLAIN", identity ++ (0 ∷ username ++ (0 ∷ password)))))
  unfolding start_plain
  start_plain-cases c =
      let offered = is_string_in_slice (codes "PLAIN") c.auth in
      elim (Bool-cases (not (c.tls || offered))) [
        | inl refused ↦ inl (rw refused refl)
        | inr allowed ↦ elim (Bool-cases (not (eq_bytes c.remote_host host))) [
          | inl other ↦ inl (rw (allowed, other) refl)
          | inr same ↦ inr (
            (ground arith, (eq_bytes_iff c.remote_host host).0 (ground arith)),
            rw (allowed, same) refl,
          )
        ]
      ]

  started-Stops :
      (c : SmtpClient)
      → let r = identity ++ (0 ∷ username ++ (0 ∷ password)) in
        let x = start_auth encode plain (some (codes "PLAIN", r)) c in
        (x.1.sent ≡ c.sent ++ credentials ∷ [])
        ⊎ ((x.0.err ≢ none) × (x.1.sent ≡ c.sent ++ credentials ∷ codes "*" ∷ codes "QUIT" ∷ []))
  unfolding start_auth cmd
  started-Stops c = elim (auth_loop-Stops _ _ _) [
    | inl same ↦ inl same
    | inr (failed, grown) ↦ inr (failed, grown ∙ append_assoc c.sent (credentials ∷ []) _)
  ]

  -- Whatever the remote host answers: `Auth` with PLAIN ends in an error and has sent nothing but
  -- QUIT; or the client speaks over TLS or was offered PLAIN, and is connected to the host that the
  -- credentials are for, and `Auth` has sent the credentials, once, and nothing else, or behind
  -- them only `*` and QUIT, with an error.
  pub plain_sends :
      (c : SmtpClient)
      → let (o, end) = auth encode (plain_auth identity username password host) c in
        ((o.err ≢ none) × (end.sent ≡ c.sent ++ codes "QUIT" ∷ []))
        ⊎ (Trusted c
            × ((end.sent ≡ c.sent ++ credentials ∷ [])
                ⊎ ((o.err ≢ none)
                    × (end.sent ≡ c.sent ++ credentials ∷ codes "*" ∷ codes "QUIT" ∷ []))))
  unfolding auth plain_auth start_auth quit cmd
  plain_sends c = elim (start_plain-cases c) [
    | inl refused ↦ rw refused (inl ((λ h. cc), refl))
    | inr (trusted, started) ↦ rw started (inr (trusted, started-Stops c))
  ]

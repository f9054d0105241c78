-- ===== src/Client/Auth/Success.antt =====
-- When `Auth` succeeds.
use tmail.Prelude.{
  Bytes, ◌≡◌, ◌≢◌, ◌∷◌, ◌==◌, [], true, none, some, Option, List, refl, inl, inr, Bool-cases, arith,
}
use tmail.Text.Base64.{decode}
use tmail.Client.{SmtpClient, Outcome, ClientError, Answer, cmd, next_answer, answered}
use tmail.Client.Auth.{
  Mechanism, Turn, fails, ends, sends, of_next, of_challenge, turn, silent, run_turn, auth_loop,
  start_auth, auth, last_reply,
}

-- A mechanism that is not through at a challenge.
abbrev pub Answers : Mechanism → Type 0
Answers m = (msg : Bytes) → m.next msg true ≢ some none

module _ (encode : Bytes → Bytes) (m : Mechanism) (answers : Answers m) where
  abbrev Good : Outcome × SmtpClient → Type 0
  Good x = x.0.err ≡ none → x.0.code ≡ 235

  of_challenge-ends : (d : Option Bytes) → of_challenge m d ≢ ends
  unfolding of_challenge of_next
  of_challenge-ends none h = cc
  of_challenge-ends (some msg) h = go (m.next msg true) (answers msg) h
    where
      go : (r : Option (Option Bytes)) → r ≢ some none → of_next r ≢ ends
      go none ne h = cc
      go (some none) ne h = ne refl
      go (some (some r)) ne h = cc

  turn-ends : (o : Outcome) → turn m o ≡ ends → o.code ≡ 235
  unfolding turn
  turn-ends o h = elim (Bool-cases (o.code == 334)) [
    | inl asked ↦ absurd (of_challenge-ends (decode o.msg) (rw asked at h))
    | inr other ↦ elim (Bool-cases (o.code == 235)) [
      | inl ok ↦ ground arith
      | inr bad ↦ cc (rw (other, bad) at h)
    ]
  ]

  run_turn-Good :
      (more : Bytes → Outcome × SmtpClient) (t : Turn) (e : Option ClientError) (o : Outcome)
      (c : SmtpClient)
      → ((r : Bytes) → Good (more r))
      → (t ≡ ends → o.code ≡ 235)
      → Good (run_turn more t e o c)
  unfolding run_turn silent
  run_turn-Good more t (some e) o c k f h = cc
  run_turn-Good more (fails e) none o c k f h = cc
  run_turn-Good more ends none o c k f h = f refl
  run_turn-Good more (sends r) none o c k f h = k r h

  no_answer : (line : Bytes) (c : SmtpClient) → c.answers ≡ [] → Good (last_reply (cmd 0 line c))
  unfolding last_reply cmd next_answer answered silent
  no_answer line c e = rw e (λ h. cc)

  behind :
      (line : Bytes) (c : SmtpClient) (a : Answer) (rest : List Answer)
      → c.answers ≡ a ∷ rest
      → (cmd 0 line c).1.answers ≡ rest
  unfolding cmd next_answer
  behind line c a rest e = rw e refl

  auth_loop-Good :
      (l : List Answer) (o : Outcome) (c : SmtpClient)
      → c.answers ≡ l
      → Good (auth_loop encode m l o c)
  unfolding auth_loop
  auth_loop-Good [] o c e =
      run_turn-Good _ (turn m o) o.err o c (λ r. no_answer (encode r) c e) (turn-ends o)
  auth_loop-Good (a ∷ rest) o c e =
      run_turn-Good _ (turn m o) o.err o c
        (λ r. auth_loop-Good rest _ _ (behind (encode r) c a rest e)) (turn-ends o)

  start_auth-Good : (c : SmtpClient) (s : Option (Bytes × Bytes)) → Good (start_auth encode m s c)
  unfolding start_auth
  start_auth-Good c none h = cc
  start_auth-Good c (some (mech, resp)) h = auth_loop-Good _ _ _ refl h

  -- If the mechanism is not through at a challenge, `Auth` gives no error only with the code 235.
  pub auth_succeeds :
      (c : SmtpClient) → (auth encode m c).0.err ≡ none → (auth encode m c).0.code ≡ 235
  unfolding auth
  auth_succeeds c h = start_auth-Good c (m.start _) h

-- ===== src/Client/Connect/Moments.antt =====
-- The states that `newSMTPClient` passes on its way, and how long an address is left alone in them.
use tmail.Deliverd.Routes.{Route}
use tmail.Prelude.{
  ◌≢◌, ◌≡◌, inl, inr, ◌⊎◌, some, Bytes, none, Option, refl, Bool-cases, ◌+◌, ℕ, ltb, ◌≤◌, ◌<◌,
  arith, eq_bytes, eq_bytes_iff, ◌∙◌, ltb→lt, ◌∷◌, [], true, false, Bool, List, sym, ap,
}
use tmail.Client.Connect.Ko.{find-remove}
use tmail.Client.Connect.{
  Net, Connected, ConnectWorld, is_remote_ip_ok, judge_ko, end_dial, Dialled, dial_failed,
  dial_timed_out, dial_greeted, dial_pair, find_ko, set_ip_ko, port_of, if_ok, try_pair, or_next,
  each, try_route, Try, same_family, connected, gives_up, goes_on,
}

-- A state that is reached by judging addresses and by dialling.
pub data Passes (w : ConnectWorld) (n : Net) : Net → Type 0 where
  start : Passes w n n
  judged : (ip : Bytes) {m : Net} → Passes w n m → Passes w n (is_remote_ip_ok ip m).1
  dialled : (c : Connected) {m : Net} → Passes w n m → Passes w n (dial_pair w c m).1

ne_of_eq_bytes : (a b : Bytes) → eq_bytes a b ≡ false → b ≢ a
ne_of_eq_bytes a b h same = cc (← h, (eq_bytes_iff a b).1 (sym same))

judge_ko-now : (ip : Bytes) (t : Option (Option ℕ)) (n : Net) → (judge_ko ip t n).1.now ≡ n.now
unfolding judge_ko
judge_ko-now ip none n = refl
judge_ko-now ip (some none) n = refl
judge_ko-now ip (some (some t)) n = ground arith

end_dial-now : (c : Connected) (x : Dialled) (n : Net) → (end_dial c x n).1.now ≡ n.now
unfolding end_dial set_ip_ko
end_dial-now c dial_greeted n = refl
end_dial-now c dial_failed n = refl
end_dial-now c dial_timed_out n = refl

-- The bucket has the address at second `t` or later, or 900 seconds have passed since `t`.
abbrev pub Rests : Bytes → ℕ → Net → Type 0
Rests ip t m = ((u : ℕ) × (find_ko ip m.ko_ips ≡ some (some u)) × (t ≤ u)) ⊎ (t + 900 < m.now)

judge_ko-Rests :
    (ip j : Bytes) (t : ℕ) (o : Option (Option ℕ)) (m : Net)
    → find_ko j m.ko_ips ≡ o
    → Rests ip t m
    → Rests ip t (judge_ko j o m).1
judge_ko-Rests ip j t o m e (inr past) = inr (rw (judge_ko-now j o m) past)
judge_ko-Rests ip j t none m e (inl r) = unfold judge_ko in inl r
judge_ko-Rests ip j t (some none) m e (inl r) = unfold judge_ko in inl r
judge_ko-Rests ip j t (some (some v)) m e (inl (u, at_u, le)) =
    unfold judge_ko in
    elim (Bool-cases (ltb (v + 900) m.now)) [
      | inr recent ↦ rw recent (inl (u, at_u, le))
      | inl old ↦ rw old (elim (Bool-cases (eq_bytes j ip)) [
        | inl same ↦
            let one : j ≡ ip = (eq_bytes_iff j ip).0 same in
            let found : find_ko j m.ko_ips ≡ some (some u) = rw one at_u in
            let equal : v ≡ u = cc (← e, found) in inr (omega (arith, ltb→lt (v + 900) m.now old))
        | inr other ↦
            let away = find-remove j ip m.ko_ips (ne_of_eq_bytes j ip other) in
            inl (u, away ∙ at_u, le)
      ])
    ]

is_remote_ip_ok-now : (ip : Bytes) (m : Net) → (is_remote_ip_ok ip m).1.now ≡ m.now
unfolding is_remote_ip_ok
is_remote_ip_ok-now ip m = judge_ko-now ip (find_ko ip m.ko_ips) m

is_remote_ip_ok-Rests :
    (ip j : Bytes) (t : ℕ) (m : Net) → Rests ip t m → Rests ip t (is_remote_ip_ok j m).1
unfolding is_remote_ip_ok
is_remote_ip_ok-Rests ip j t m r = judge_ko-Rests ip j t (find_ko j m.ko_ips) m refl r

reachable-judge_ko :
    (ip : Bytes) (t u : ℕ) (o : Option (Option ℕ)) (m : Net)
    → o ≡ some (some u)
    → t ≤ u
    → (judge_ko ip o m).0 ≡ true
    → t + 900 < m.now
unfolding judge_ko
reachable-judge_ko ip t u none m e k h = cc
reachable-judge_ko ip t u (some none) m e k h = cc
reachable-judge_ko ip t u (some (some v)) m e k h =
    let same : v ≡ u = cc in
    elim (Bool-cases (ltb (v + 900) m.now)) [
      | inl old ↦ omega (arith, ltb→lt (v + 900) m.now old)
      | inr recent ↦ cc (rw recent at h)
    ]

-- An address that is not left alone any more has had its 900 seconds.
pub reachable-Rests :
    (ip : Bytes) (t : ℕ) (m : Net)
    → Rests ip t m
    → (is_remote_ip_ok ip m).0 ≡ true
    → t + 900 < m.now
unfolding is_remote_ip_ok
reachable-Rests ip t m (inr past) h = past
reachable-Rests ip t m (inl (u, at_u, le)) h =
    reachable-judge_ko ip t u (find_ko ip m.ko_ips) m at_u le h

end_dial-Rests :
    (ip : Bytes) (t : ℕ) (c : Connected) (x : Dialled) (m : Net)
    → t ≤ m.now
    → Rests ip t m
    → Rests ip t (end_dial c x m).1
end_dial-Rests ip t c dial_greeted m k r = unfold end_dial in r
end_dial-Rests ip t c dial_failed m k r = unfold end_dial in r
end_dial-Rests ip t c dial_timed_out m k (inr past) =
    inr (rw (end_dial-now c dial_timed_out m) past)
end_dial-Rests ip t c dial_timed_out m k (inl (u, at_u, le)) =
    unfold end_dial set_ip_ko find_ko in
    elim (Bool-cases (eq_bytes c.remote ip)) [
      | inl same ↦ inl (m.now, rw same refl, k)
      | inr other ↦
          let away = find-remove c.remote ip m.ko_ips (ne_of_eq_bytes c.remote ip other) in
          inl (u, rw other (away ∙ at_u), le)
    ]

module _ (w : ConnectWorld) where
  dial_pair-now : (c : Connected) (m : Net) → m.now ≤ (dial_pair w c m).1.now
  unfolding dial_pair
  dial_pair-now c m =
      let (d, seconds) = w.dial m.tries c.local c.remote (port_of c.route.remote_port) in
      rw (end_dial-now c d (record m { now = m.now + seconds; tries = m.tries + 1 })) (omega arith)

  pub dials-later :
      (c : Connected) (m end : Net)
      → dial_pair w c (is_remote_ip_ok c.remote m).1 ≡ (connected c, end)
      → m.now ≤ end.now
  dials-later c m end h =
      let step = dial_pair-now c (is_remote_ip_ok c.remote m).1 in
      let same = is_remote_ip_ok-now c.remote m in
      let last : (dial_pair w c (is_remote_ip_ok c.remote m).1).1.now ≡ end.now =
        ap (λ (x : Try × Net). x.1.now) h in
      omega arith

  dial_pair-Rests :
      (ip : Bytes) (t : ℕ) (c : Connected) (m : Net)
      → t ≤ m.now
      → Rests ip t m
      → Rests ip t (dial_pair w c m).1
  unfolding dial_pair
  dial_pair-Rests ip t c m k r =
      let (d, seconds) = w.dial m.tries c.local c.remote (port_of c.route.remote_port) in
      end_dial-Rests ip t c d (record m { now = m.now + seconds; tries = m.tries + 1 })
        (omega arith) (later seconds r)
    where
      later :
          (seconds : ℕ)
          → Rests ip t m
          → Rests ip t (record m { now = m.now + seconds; tries = m.tries + 1 })
      later seconds (inl r) = inl r
      later seconds (inr past) = inr (omega arith)

  module _ (n : Net) where
    pub Passes-now : {m : Net} → Passes w n m → n.now ≤ m.now
    Passes-now start = omega arith
    Passes-now (judged ip {m} p) = let later = Passes-now p in rw (is_remote_ip_ok-now ip m) later
    Passes-now (dialled c {m} p) = omega (arith, Passes-now p, dial_pair-now c m)

    pub Passes-Rests :
        (ip : Bytes) (t : ℕ)
        → find_ko ip n.ko_ips ≡ some (some t)
        → t ≤ n.now
        → {m : Net} → Passes w n m
        → Rests ip t m
    Passes-Rests ip t at_t k start = inl (t, at_t, omega arith)
    Passes-Rests ip t at_t k (judged j {m} p) =
        is_remote_ip_ok-Rests ip j t m (Passes-Rests ip t at_t k p)
    Passes-Rests ip t at_t k (dialled c {m} p) =
        dial_pair-Rests ip t c m (omega (arith, Passes-now p)) (Passes-Rests ip t at_t k p)

    if_ok-Passes :
        (c : Connected) (b : Bool) (m : Net) → Passes w n m → Passes w n (if_ok w c (b, m)).1
    unfolding if_ok
    if_ok-Passes c false m p = p
    if_ok-Passes c true m p = elim (Bool-cases (w.resolve_local c.local)) [
      | inl good ↦ rw good (dialled c p)
      | inr bad ↦ rw bad p
    ]

    pub try_pair-Passes :
        (route : Route) (l r : Bytes) (m : Net)
        → Passes w n m
        → Passes w n (try_pair w route l r m).1
    unfolding try_pair
    try_pair-Passes route l r m p = elim (Bool-cases (same_family l r)) [
      | inl family ↦
          let c : Connected = record { route = route; local = l; remote = r } in
          rw family (if_ok-Passes c (is_remote_ip_ok r m).0 (is_remote_ip_ok r m).1 (judged r p))
      | inr other ↦ rw other p
    ]

    or_next-Passes :
        (x : Try × Net) (next : Net → Try × Net)
        → Passes w n x.1
        → ((m : Net) → Passes w n m → Passes w n (next m).1)
        → Passes w n (or_next x next).1
    unfolding or_next
    or_next-Passes (connected c, m) next p k = p
    or_next-Passes (gives_up, m) next p k = p
    or_next-Passes (goes_on, m) next p k = k m p

    pub each-Passes :
        {A : Type 0} (f : A → Net → Try × Net) (xs : List A)
        → ((a : A) (m : Net) → Passes w n m → Passes w n (f a m).1)
        → (m : Net) → Passes w n m
        → Passes w n (each f xs m).1
    unfolding each
    each-Passes f [] keeps m p = p
    each-Passes f (a ∷ rest) keeps m p =
        or_next-Passes (f a m) (each f rest) (keeps a m p) (each-Passes f rest keeps)

    pub try_route-Passes :
        (route : Route) (ls rs : Option (List Bytes)) (m : Net)
        → Passes w n m
        → Passes w n (try_route w route ls rs m).1
    unfolding try_route
    try_route-Passes route (some ls) (some rs) m p =
        each-Passes (λ l. each (λ r. try_pair w route l r) rs) ls
          (λ l. each-Passes (λ r. try_pair w route l r) rs (try_pair-Passes route l)) m p
    try_route-Passes route none rs m p = p
    try_route-Passes route (some ls) none m p = p

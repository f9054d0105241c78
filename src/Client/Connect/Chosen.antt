-- ===== src/Client/Connect/Chosen.antt =====
-- The connection that `newSMTPClient` returns.
use mathlib.Core.Path.{subst}
use tmail.Deliverd.Routes.{Route}
use tmail.Client.Connect.Moments.{
  Passes, start, Passes-Rests, try_pair-Passes, each-Passes, try_route-Passes, reachable-Rests,
  dials-later,
}
use tmail.Prelude.{
  ◌≤◌, ◌<◌, ◌∙◌, ◌≡◌, ◌∷◌, [], List, inl, inr, ◌⊎◌, true, some, Bytes, false, Bool, none, Option,
  refl, Bool-cases, ◌+◌, ℕ, arith,
}
use tmail.Client.Connect.{
  find_ko, Net, Connected, Try, connected, gives_up, goes_on, or_next, each, ConnectWorld,
  local_ips_of, same_family, remote_ips_of, is_remote_ip_ok, judge_ko, port_of, dial_greeted,
  end_dial, if_ok, try_pair, try_route, end_routes, new_smtp_client, Dialled, dial_failed,
  dial_timed_out, dial_pair,
}

pub data In {A : Type 0} (a : A) : List A → Type 0 where
  here : {xs : List A} → In a (a ∷ xs)
  there : {x : A} {xs : List A} → In a xs → In a (x ∷ xs)

or_next-cases :
    (x : Try × Net) (next : Net → Try × Net) (c : Connected) (e : Net)
    → or_next x next ≡ (connected c, e)
    → (x ≡ (connected c, e)) ⊎ (next x.1 ≡ (connected c, e))
unfolding or_next
or_next-cases (connected d, n) next c e h = inl h
or_next-cases (gives_up, n) next c e h = cc
or_next-cases (goes_on, n) next c e h = inr h

-- A pair of addresses of a route of the list, of one family; `moment` is the state, passed on the
-- way from `n`, in which the remote address is judged: it is not left alone then, and the dial from
-- there gives the connection and the last state `end`. An address of the bucket is not taken
-- before its 900 seconds have passed.
pub record Chosen (w : ConnectWorld) (routes : List Route) (n : Net) (c : Connected) (end : Net)
    : Type 0 where
  pub locals : List Bytes
  pub remotes : List Bytes
  pub of_routes : In c.route routes
  pub its_locals : local_ips_of w c.route ≡ some locals
  pub its_remotes : remote_ips_of w c.route ≡ some remotes
  pub of_locals : In c.local locals
  pub of_remotes : In c.remote remotes
  pub family : same_family c.local c.remote ≡ true
  pub moment : Net
  pub passed : Passes w n moment
  pub reachable : (is_remote_ip_ok c.remote moment).0 ≡ true
  pub greets : (w.dial moment.tries c.local c.remote (port_of c.route.remote_port)).0 ≡ dial_greeted
  pub dials : dial_pair w c (is_remote_ip_ok c.remote moment).1 ≡ (connected c, end)
  pub rested :
      (t : ℕ)
      → find_ko c.remote n.ko_ips ≡ some (some t)
      → t ≤ n.now
      → (t + 900 < moment.now) × (moment.now ≤ end.now)

module _ (w : ConnectWorld) (n : Net) where
  -- What a returned connection comes from: an element, and the state in which it was tried.
  record Source {A : Type 0} (f : A → Net → Try × Net) (xs : List A) (c : Connected) (end : Net)
      : Type 0 where
    item : A
    member : In item xs
    before : Net
    passed : Passes w n before
    outcome : f item before ≡ (connected c, end)

  each-Source :
      {A : Type 0} (f : A → Net → Try × Net) (xs : List A) (m : Net) (c : Connected) (end : Net)
      → ((a : A) (k : Net) → Passes w n k → Passes w n (f a k).1)
      → Passes w n m
      → each f xs m ≡ (connected c, end)
      → Source f xs c end
  unfolding each
  each-Source f [] m c end keeps p h = cc
  each-Source f (a ∷ rest) m c end keeps p h = elim (or_next-cases (f a m) (each f rest) c end h) [
    | inl now ↦ record { item = a; member = here; before = m; passed = p; outcome = now }
    | inr later ↦
        let s = each-Source f rest (f a m).1 c end keeps (keeps a m p) later in
        record {
          item = s.item;
          member = there s.member;
          before = s.before;
          passed = s.passed;
          outcome = s.outcome;
        }
  ]

  record Reached (c : Connected) (m end : Net) : Type 0 where
    reachable : (is_remote_ip_ok c.remote m).0 ≡ true
    greets : (w.dial m.tries c.local c.remote (port_of c.route.remote_port)).0 ≡ dial_greeted
    dials : dial_pair w c (is_remote_ip_ok c.remote m).1 ≡ (connected c, end)

  end_dial-greeted :
      (c d : Connected) (x : Dialled) (m end : Net)
      → end_dial c x m ≡ (connected d, end)
      → (x ≡ dial_greeted) × (c ≡ d)
  unfolding end_dial
  end_dial-greeted c d dial_greeted m end h = (refl, cc)
  end_dial-greeted c d dial_failed m end h = cc
  end_dial-greeted c d dial_timed_out m end h = cc

  judge_ko-tries :
      (ip : Bytes) (t : Option (Option ℕ)) (m : Net) → (judge_ko ip t m).1.tries ≡ m.tries
  unfolding judge_ko
  judge_ko-tries ip none m = refl
  judge_ko-tries ip (some none) m = refl
  judge_ko-tries ip (some (some t)) m = ground arith

  is_remote_ip_ok-tries : (ip : Bytes) (m : Net) → (is_remote_ip_ok ip m).1.tries ≡ m.tries
  unfolding is_remote_ip_ok
  is_remote_ip_ok-tries ip m = judge_ko-tries ip _ m

  dial_pair-greeted :
      (c d : Connected) (m end : Net)
      → dial_pair w c m ≡ (connected d, end)
      → ((w.dial m.tries c.local c.remote (port_of c.route.remote_port)).0 ≡ dial_greeted) × (c ≡ d)
  unfolding dial_pair
  dial_pair-greeted c d m end h = end_dial-greeted c d _ _ end h

  if_ok-Reached :
      (c d : Connected) (m end : Net) (b : Bool)
      → (is_remote_ip_ok c.remote m).0 ≡ b
      → if_ok w c (b, (is_remote_ip_ok c.remote m).1) ≡ (connected d, end)
      → (c ≡ d) × Reached c m end
  unfolding if_ok
  if_ok-Reached c d m end false e h = cc
  if_ok-Reached c d m end true e h = elim (Bool-cases (w.resolve_local c.local)) [
    | inl good ↦
        let dials : dial_pair w c (is_remote_ip_ok c.remote m).1 ≡ (connected d, end) =
          rw good at h in
        let (greets, same) = dial_pair-greeted c d (is_remote_ip_ok c.remote m).1 end dials in
        let at_m = is_remote_ip_ok-tries c.remote m in
        (
          same,
          record {
            reachable = e;
            greets =
                subst
                  (λ k. (w.dial k c.local c.remote (port_of c.route.remote_port)).0 ≡ dial_greeted)
                  at_m greets;
            dials = dials ∙ rw same refl;
          },
        )
    | inr bad ↦ cc (rw bad at h)
  ]

  -- what `try_pair` returns
  record Pair (route : Route) (l r : Bytes) (m : Net) (d : Connected) (end : Net) : Type 0 where
    same : record { route = route; local = l; remote = r } ≡ d
    family : same_family l r ≡ true
    reached : Reached (record { route = route; local = l; remote = r }) m end

  try_pair-Pair :
      (route : Route) (l r : Bytes) (m : Net) (d : Connected) (end : Net)
      → try_pair w route l r m ≡ (connected d, end)
      → Pair route l r m d end
  unfolding try_pair
  try_pair-Pair route l r m d end h = elim (Bool-cases (same_family l r)) [
    | inl family ↦
        let (same, reached) =
          if_ok-Reached (record { route = route; local = l; remote = r }) d m end _ refl
            (rw family at h) in
        record { same = same; family = family; reached = reached }
    | inr other ↦ cc (rw other at h)
  ]

  -- An address that is judged reachable has had its rest.
  reachable_rested :
      (c : Connected) (m end : Net)
      → Passes w n m
      → Reached c m end
      → (t : ℕ) → find_ko c.remote n.ko_ips ≡ some (some t)
      → t ≤ n.now
      → (t + 900 < m.now) × (m.now ≤ end.now)
  reachable_rested c m end p r t at_t k = (
    reachable-Rests c.remote t m (Passes-Rests w n c.remote t at_t k p) r.reachable,
    dials-later w c m end r.dials,
  )

  try_route-Chosen :
      (routes : List Route) (route : Route) (ls rs : Option (List Bytes)) (m : Net) (d : Connected)
      (end : Net)
      → In route routes
      → local_ips_of w route ≡ ls
      → remote_ips_of w route ≡ rs
      → Passes w n m
      → try_route w route ls rs m ≡ (connected d, end)
      → Chosen w routes n d end
  unfolding try_route
  try_route-Chosen routes route none rs m d end i el er p h = cc
  try_route-Chosen routes route (some ls) none m d end i el er p h = cc
  try_route-Chosen routes route (some ls) (some rs) m d end i el er p h =
      let pair = λ (l : Bytes). try_pair-Passes w n route l in
      let outer =
        each-Source (λ l. each (λ r. try_pair w route l r) rs) ls m d end
          (λ l. each-Passes w n (λ r. try_pair w route l r) rs (pair l)) p h in
      let inner =
        each-Source (λ r. try_pair w route outer.item r) rs outer.before d end (pair outer.item)
          outer.passed outer.outcome in
      let q = try_pair-Pair route outer.item inner.item inner.before d end inner.outcome in
      let c : Connected = record { route = route; local = outer.item; remote = inner.item } in
      subst (λ x. Chosen w routes n x end) q.same
        (record {
          locals = ls;
          remotes = rs;
          of_routes = i;
          its_locals = el;
          its_remotes = er;
          of_locals = outer.member;
          of_remotes = inner.member;
          family = q.family;
          moment = inner.before;
          passed = inner.passed;
          reachable = q.reached.reachable;
          greets = q.reached.greets;
          dials = q.reached.dials;
          rested = reachable_rested c inner.before end inner.passed q.reached;
        })

  returned :
      (x : Try × Net) (d : Connected) (end : Net)
      → end_routes x ≡ (some d, end)
      → x ≡ (connected d, end)
  unfolding end_routes
  returned (connected c, m) d end h = cc
  returned (gives_up, m) d end h = cc
  returned (goes_on, m) d end h = cc

  -- A connection that `newSMTPClient` returns is one of a route of the list, between a local
  -- address of the route and one of its remote addresses, of one family. The state in which it was
  -- tried is one that is passed by judging addresses and dialling from the first state, the remote
  -- address was not left alone in it, and the dial from there was greeted and gave the last state.
  -- So a remote address that the bucket holds at first, put in at a second not in the future, is
  -- chosen only once more than 900 seconds have passed since then.
  pub new_smtp_client-Chosen :
      (routes : List Route) (d : Connected) (end : Net)
      → new_smtp_client w routes n ≡ (some d, end)
      → Chosen w routes n d end
  unfolding new_smtp_client
  new_smtp_client-Chosen routes d end h =
      let all =
        each-Source (λ route. try_route w route (local_ips_of w route) (remote_ips_of w route))
          routes n d end
          (λ route. try_route-Passes w n route (local_ips_of w route) (remote_ips_of w route)) start
          (returned _ d end h) in
      try_route-Chosen routes all.item (local_ips_of w all.item) (remote_ips_of w all.item)
        all.before d end all.member refl refl all.passed all.outcome

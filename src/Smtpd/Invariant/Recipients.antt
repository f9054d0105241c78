-- ===== src/Smtpd/Invariant/Recipients.antt =====
-- RCPT adds one recipient at most, a new one, in a transaction, within the maximum.
use tmail.Smtpd.Mail.{at_sign}
use tmail.Text.{to_lower, split, part}
use tmail.Directory.{Query, RcptHost, row, query_error, record_not_found}
use tmail.Prelude.{
  ◌≤◌, ◌≡◌, ◌≢◌, ◌∷◌, ◌++◌, ◌∙◌, [], true, false, Bool, none, some, Option, List, refl, arith,
  Bytes, length, eq_bytes, eq_bytes_iff, ◌+◌, ◌==◌, inl, inr, not, Bool-cases, length-append, ◌&&◌,
  ltb,
}
use tmail.Smtpd.View.{View, view, blank, LeaveView, exit_asap-view}
use tmail.Smtpd.Session.{Env, Session, Config, answer, out, exec_smtpd_plugins, at_rcptto}
use tmail.Smtpd.Data.{no_rcpt}
use tmail.Smtpd.Invariant.Sender.{IsFresh}
use tmail.Smtpd.Rcpt.{
  Flow, done, next, session_of, judge_mailbox, judge_rcpthost, check_rcpthost, refuse_mailbox,
  check_user, judge_ip, check_ip, check_granted, check_relay, ◌>>=◌, add_rcpt, relay_rcpt,
  take_address, smtp_rcpt_to, bad_address, lower_domain, rcpt_argument, bad_rcpt_syntax,
  full_address,
}
use tmail.Text.Utils.{is_string_in_slice}

abbrev pub Distinct : List Bytes → Type 0
Distinct [] = Unit
Distinct (r ∷ rs) = (is_string_in_slice r rs ≡ false) × Distinct rs

pub record IsSafe (c : Config) (v : View) : Type 0 where
  pub started : no_rcpt v.0.rcpt_to ≡ false → v.1 ≡ true
  pub distinct : Distinct v.0.rcpt_to
  pub counted : length v.0.rcpt_to ≤ v.2
  pub capped : c.max_rcpt_to ≢ 0 → length v.0.rcpt_to ≤ c.max_rcpt_to

pub Fresh-IsSafe : (c : Config) (v : View) → IsFresh v → IsSafe c v
unfolding no_rcpt
Fresh-IsSafe c v (empty, zeroed) = record {
  started = rw empty (λ h. cc h);
  distinct = rw empty tt;
  counted = rw empty (omega arith);
  capped = rw empty (λ m. omega arith);
}

pub blank-IsSafe : (c : Config) → IsSafe c blank
blank-IsSafe c = Fresh-IsSafe c blank (refl, refl)

slice-concat :
    (a r : Bytes) (rs : List Bytes)
    → is_string_in_slice a rs ≡ false
    → eq_bytes r a ≡ false
    → is_string_in_slice a (rs ++ r ∷ []) ≡ false
unfolding is_string_in_slice
slice-concat a r [] h k = ground arith
slice-concat a r (x ∷ rs) h k = ground (arith, slice-concat a r rs)

Distinct-concat :
    (r : Bytes) (rs : List Bytes)
    → Distinct rs
    → is_string_in_slice r rs ≡ false
    → Distinct (rs ++ r ∷ [])
unfolding is_string_in_slice
Distinct-concat r [] d h = (refl, tt)
Distinct-concat r (x ∷ rs) d h =
    ground
      (arith, Distinct-concat r rs d.1, slice-concat x r rs d.0, eq_bytes_iff x r, eq_bytes_iff r x)

module _ (e : Env) (p : LeaveView e) where
  -- A check hands on or answers, and leaves the view.
  judge_mailbox-view :
      (r : Option Bool) (s : Session) → view (session_of (judge_mailbox e r s)) ≡ view s
  unfolding judge_mailbox refuse_mailbox answer out
  judge_mailbox-view none s = refl
  judge_mailbox-view (some true) s = refl
  judge_mailbox-view (some false) s = ground (
    arith,
    exit_asap-view e p (record (answer 550 " 5.5.1 Sorry, no mailbox here by that name" [] s) {
      bad_rcpt_to_count = s.bad_rcpt_to_count + 1;
    }),
  )

  judge_rcpthost-view :
      (q : Query RcptHost) (s : Session) → view (session_of (judge_rcpthost e q s)) ≡ view s
  unfolding judge_rcpthost answer out
  judge_rcpthost-view query_error s = refl
  judge_rcpthost-view record_not_found s = refl
  judge_rcpthost-view (row h) s = ground (
    arith,
    judge_mailbox-view (e.directory.is_valid_local_rcpt (to_lower s.last_rcpt_to))
        (record s { relay_granted = true }),
  )

  check_rcpthost-view :
      (d : Bytes) (s : Session) → view (session_of (check_rcpthost e d s)) ≡ view s
  unfolding check_rcpthost
  check_rcpthost-view d s = ground (arith, judge_rcpthost-view (e.directory.rcpthost_get d) s)

  check_user-view : (s : Session) → view (session_of (check_user s)) ≡ view s
  unfolding check_user
  check_user-view s = ground arith

  check_ip-view : (s : Session) → view (session_of (check_ip e s)) ≡ view s
  unfolding check_ip judge_ip answer out
  check_ip-view s = ground arith

  check_granted-view : (s : Session) → view (session_of (check_granted s)) ≡ view s
  unfolding check_granted answer out
  check_granted-view s = ground arith

  >>=-view :
      (m : Flow) (k : Session → Flow) (s : Session)
      → view (session_of m) ≡ view s
      → ((t : Session) → view (session_of (k t)) ≡ view t)
      → view (session_of (m >>= k)) ≡ view s
  >>=-view (done t) k s h f = h
  >>=-view (next t) k s h f = f t ∙ h

  pub check_relay-view : (d : Bytes) (s : Session) → view (session_of (check_relay e d s)) ≡ view s
  unfolding check_relay
  check_relay-view d s =
      >>=-view (check_rcpthost e d s) (λ t. check_user t >>= λ u. check_ip e u >>= check_granted) s
        (check_rcpthost-view d s)
        λ t.
          >>=-view (check_user t) (λ u. check_ip e u >>= check_granted) t (check_user-view t)
            λ u. >>=-view (check_ip e u) check_granted u (check_ip-view u) check_granted-view

  -- A transaction with room for one more recipient.
  record HasRoom (v : View) : Type 0 where
    begun : v.1 ≡ true
    distinct : Distinct v.0.rcpt_to
    counted : length v.0.rcpt_to + 1 ≤ v.2
    capped : e.cfg.max_rcpt_to ≢ 0 → v.2 ≤ e.cfg.max_rcpt_to

  HasRoom-IsSafe : (v : View) → HasRoom v → IsSafe e.cfg v
  HasRoom-IsSafe v k = record {
    started = λ _. k.begun;
    distinct = k.distinct;
    counted = omega (arith, k.counted);
    capped = λ m. omega (arith, k.counted, k.capped m);
  }

  add_rcpt-IsSafe : (s : Session) → HasRoom (view s) → IsSafe e.cfg (view (add_rcpt s))
  unfolding add_rcpt answer out
  add_rcpt-IsSafe s k = elim (Bool-cases (is_string_in_slice s.last_rcpt_to s.envelope.rcpt_to)) [
    | inl known ↦ rw known (HasRoom-IsSafe (view s) k)
    | inr new ↦ rw new (record {
      started = λ _. k.begun;
      distinct = Distinct-concat s.last_rcpt_to s.envelope.rcpt_to k.distinct new;
      counted = omega (arith, k.counted, length-append s.envelope.rcpt_to (s.last_rcpt_to ∷ []));
      capped = λ m.
          omega
            (arith, k.counted, k.capped m, length-append s.envelope.rcpt_to (s.last_rcpt_to ∷ []));
    })
  ]

  finish_rcpt-IsSafe :
      (m : Flow) (s : Session)
      → view (session_of m) ≡ view s
      → HasRoom (view s)
      → IsSafe e.cfg (view (session_of (m >>= λ granted. done (add_rcpt granted))))
  finish_rcpt-IsSafe (done t) s h k = rw h (HasRoom-IsSafe (view s) k)
  finish_rcpt-IsSafe (next t) s h k = add_rcpt-IsSafe t (rw h k)

  relay_rcpt-IsSafe :
      (d : Bytes) (r : Session × Bool) → HasRoom (view r.0) → IsSafe e.cfg (view (relay_rcpt e d r))
  unfolding relay_rcpt
  relay_rcpt-IsSafe d (s, true) k = HasRoom-IsSafe (view s) k
  relay_rcpt-IsSafe d (s, false) k =
      finish_rcpt-IsSafe (check_relay e d s) s (check_relay-view d s) k

  take_address-IsSafe :
      (a : Bytes) (s : Session) → HasRoom (view s) → IsSafe e.cfg (view (take_address e a s))
  unfolding take_address bad_address answer out
  take_address-IsSafe a s k =
      let parts = split a at_sign in
      let s' = record s { last_rcpt_to = lower_domain parts; relay_granted = false } in
      let r = exec_smtpd_plugins e at_rcptto s' in
      let kept = relay_rcpt-IsSafe (part 1 parts) r (rw (p.leaves at_rcptto s') k) in
      elim (Bool-cases (not (e.parse_address a))) [
        | inl bad ↦ rw bad (HasRoom-IsSafe (view s) k)
        | inr good ↦ elim (Bool-cases (not (length parts == 2))) [
          | inl bad ↦ rw (good, bad) (HasRoom-IsSafe (view s) k)
          | inr two ↦ rw (good, two) kept
        ]
      ]

  counting-IsSafe :
      (s : Session)
      → IsSafe e.cfg (view s)
      → IsSafe e.cfg (view (record s { last_rcpt_to = []; rcpt_count = s.rcpt_count + 1 }))
  counting-IsSafe s k = record {
    started = k.started;
    distinct = k.distinct;
    counted = omega (arith, k.counted);
    capped = k.capped;
  }

  room :
      (s : Session)
      → IsSafe e.cfg (view s)
      → (not (e.cfg.max_rcpt_to == 0) && ltb e.cfg.max_rcpt_to (s.rcpt_count + 1)) ≡ false
      → not s.seen_mail ≡ false
      → HasRoom (view (record s { last_rcpt_to = []; rcpt_count = s.rcpt_count + 1 }))
  room s k within begun = record {
    begun = ground arith;
    distinct = k.distinct;
    counted = omega (arith, k.counted);
    capped = λ m. ground arith;
  }

  -- RCPT, on every branch.
  pub smtp_rcpt_to-IsSafe :
      (msg : List Bytes) (s : Session)
      → IsSafe e.cfg (view s)
      → IsSafe e.cfg (view (smtp_rcpt_to e msg s))
  unfolding smtp_rcpt_to answer out
  smtp_rcpt_to-IsSafe msg s k =
      let s' = record s { last_rcpt_to = []; rcpt_count = s.rcpt_count + 1 } in
      let max = e.cfg.max_rcpt_to in
      let counting = counting-IsSafe s k in
      let given = rcpt_argument msg in
      elim (Bool-cases (not (max == 0) && ltb max (s.rcpt_count + 1))) [
        | inl over ↦ rw over counting
        | inr within ↦ elim (Bool-cases (not s.seen_mail)) [
          | inl early ↦ rw (within, early) counting
          | inr begun ↦ elim (Bool-cases (bad_rcpt_syntax msg)) [
            | inl bad ↦ rw (within, begun, bad) counting
            | inr good ↦ elim (Bool-cases (length given == 0)) [
              | inl nothing ↦ rw (within, begun, good, nothing) counting
              | inr something ↦
                  rw (within, begun, good, something)
                    (take_address-IsSafe (full_address e.cfg.me given) s' (room s k within begun))
            ]
          ]
        ]
      ]

-- ===== src/Smtpd/Relay.antt =====
-- Who may have mail relayed: what an accepted RCPT rests on.
use tmail.Text.Utils.{is_string_in_slice}
use tmail.Smtpd.Invariant.Recipients.{check_relay-view}
use tmail.Smtpd.Mail.{at_sign}
use tmail.Smtpd.View.{LeaveView, view, View}
use tmail.Text.{to_lower, split, part}
use tmail.Prelude.{
  ◌≡◌, ◌⊎◌, true, false, some, refl, arith, Bytes, ◌∙◌, Bool, none, Option, ap, inl, inr,
  Bool-cases, ◌≢◌, ◌==◌, [], List, not, length, ◌+◌, ◌&&◌, ltb, ◌∷◌, ◌++◌,
}
use tmail.Directory.{RcptHost, Directory, row, Query, query_error, record_not_found}
use tmail.Smtpd.Session.{Env, Session, at_rcptto, answer, out, exec_smtpd_plugins, run_first}
use tmail.Smtpd.Rcpt.{
  Flow, done, next, ◌>>=◌, user_relay, check_rcpthost, judge_rcpthost, judge_mailbox, check_user,
  check_ip, judge_ip, check_granted, check_relay, full_address, rcpt_argument, relay_rcpt,
  take_address, smtp_rcpt_to, bad_address, session_of, lower_domain, add_rcpt, bad_rcpt_syntax,
}

-- The domain is a host of the server, and if it is local the address is a valid one there.
abbrev pub IsHosted : Directory → Bytes → Bytes → Type 0
IsHosted d domain address =
    (h : RcptHost) × (d.rcpthost_get domain ≡ row h)
    × (h.is_local ≡ true → d.is_valid_local_rcpt (to_lower address) ≡ some true)

-- The domain is a host, the user of the session may relay, or the address of the client may.
abbrev pub IsAuthorised : Env → Session → Bytes → Bytes → Type 0
IsAuthorised e s domain address =
    IsHosted e.directory domain address
    ⊎ (user_relay s.user ≡ true)
    ⊎ (e.directory.ip_can_relay s.remote_addr ≡ some true)

>>=-next :
    (m : Flow) (k : Session → Flow) {t : Session}
    → (m >>= k) ≡ next t
    → (u : Session) × (m ≡ next u) × (k u ≡ next t)
>>=-next (done s) k h = cc
>>=-next (next s) k h = (s, refl, h)

module _ (e : Env) where
  judge_mailbox-next :
      (r : Option Bool) (s t : Session) → judge_mailbox e r s ≡ next t → (r ≡ some true) × (t ≡ s)
  unfolding judge_mailbox
  judge_mailbox-next none s t h = cc
  judge_mailbox-next (some true) s t h = (refl, ground arith)
  judge_mailbox-next (some false) s t h = cc

  -- What the check of the host hands on.
  abbrev HostChecked : Bytes → Session → Session → Type 0
  HostChecked d s t =
      (t.relay_granted ≡ true → IsHosted e.directory d s.last_rcpt_to)
      × (t.user ≡ s.user)
      × (t.remote_addr ≡ s.remote_addr)
      × (t.last_rcpt_to ≡ s.last_rcpt_to)

  judge_rcpthost-next :
      (q : Query RcptHost) (d : Bytes) (s t : Session)
      → e.directory.rcpthost_get d ≡ q
      → s.relay_granted ≡ false
      → judge_rcpthost e q s ≡ next t
      → HostChecked d s t
  unfolding judge_rcpthost
  judge_rcpthost-next query_error d s t e' g h = cc
  judge_rcpthost-next record_not_found d s t e' g h =
      let same : s ≡ t = ground arith in rw (← same) (λ k. cc, refl, refl, refl)
  judge_rcpthost-next (row r) d s t e' g h = elim (Bool-cases r.is_local) [
    | inl local ↦
        let valid = e.directory.is_valid_local_rcpt (to_lower s.last_rcpt_to) in
        let (known, same) =
          judge_mailbox-next valid (record s { relay_granted = true }) t (rw local at h) in
        rw same (λ _. (r, e', λ _. known), refl, refl, refl)
    | inr remote ↦
        let same : record s { relay_granted = true } ≡ t = ground arith in
        rw (← same) (λ _. (r, e', λ k. cc), refl, refl, refl)
  ]

  check_rcpthost-next :
      (d : Bytes) (s t : Session)
      → s.relay_granted ≡ false
      → check_rcpthost e d s ≡ next t
      → HostChecked d s t
  unfolding check_rcpthost
  check_rcpthost-next d s t g h =
      judge_rcpthost-next (e.directory.rcpthost_get d) d s t refl g (ground arith)

  check_user-next :
      (s t : Session)
      → check_user s ≡ next t
      → (t.relay_granted ≡ true → (s.relay_granted ≡ true) ⊎ (user_relay s.user ≡ true))
        × (t.remote_addr ≡ s.remote_addr)
        × (t.last_rcpt_to ≡ s.last_rcpt_to)
  unfolding check_user
  check_user-next s t h = ground arith

  check_ip-next :
      (s t : Session)
      → check_ip e s ≡ next t
      → (t.relay_granted ≡ true
          → (s.relay_granted ≡ true) ⊎ (e.directory.ip_can_relay s.remote_addr ≡ some true))
        × (t.last_rcpt_to ≡ s.last_rcpt_to)
  unfolding check_ip judge_ip
  check_ip-next s t h = ground arith

  check_granted-next :
      (s t : Session) → check_granted s ≡ next t → (s.relay_granted ≡ true) × (t ≡ s)
  unfolding check_granted
  check_granted-next s t h = ground arith

  -- The chain of checks hands on only a session that is authorised.
  check_relay-next :
      (d : Bytes) (s t : Session)
      → s.relay_granted ≡ false
      → check_relay e d s ≡ next t
      → IsAuthorised e s d s.last_rcpt_to × (t.last_rcpt_to ≡ s.last_rcpt_to)
  unfolding check_relay
  check_relay-next d s t g h =
      let (u, at_host, h₁) =
        >>=-next (check_rcpthost e d s) (λ u. check_user u >>= λ v. check_ip e v >>= check_granted)
          h in
      let (v, at_user, h₂) = >>=-next (check_user u) (λ v. check_ip e v >>= check_granted) h₁ in
      let (w, at_ip, h₃) = >>=-next (check_ip e v) check_granted h₂ in
      let (hosted, same_user, same_addr, same_rcpt) = check_rcpthost-next d s u g at_host in
      let (logged, addr₂, rcpt₂) = check_user-next u v at_user in
      let (allowed, rcpt₃) = check_ip-next v w at_ip in
      let (granted, same) = check_granted-next w t h₃ in
      let address : t.last_rcpt_to ≡ s.last_rcpt_to =
        ap (λ (x : Session). x.last_rcpt_to) same ∙ rcpt₃ ∙ rcpt₂ ∙ same_rcpt in
      (
        elim (allowed granted) [
          | inl by_flag ↦ elim (logged by_flag) [
            | inl by_host ↦ inl (hosted by_host)
            | inr by_user ↦ inr (inl (rw same_user at by_user))
          ]
          | inr by_ip ↦ inr (inr (rw (addr₂, same_addr) at by_ip))
        ],
        address,
      )

-- What the acceptance of a new recipient rests on.
pub record IsAccepted (e : Env) (msg : List Bytes) (s : Session) : Type 0 where
  pub begun : s.seen_mail ≡ true
  pub parsed : e.parse_address (full_address e.cfg.me (rcpt_argument msg)) ≡ true
  pub two_parts : length (split (full_address e.cfg.me (rcpt_argument msg)) at_sign) ≡ 2
  pub authorised :
      IsAuthorised e s
        (part 1 (split (full_address e.cfg.me (rcpt_argument msg)) at_sign))
        (lower_domain (split (full_address e.cfg.me (rcpt_argument msg)) at_sign))
  pub added :
      (smtp_rcpt_to e msg s).envelope.rcpt_to
      ≡ s.envelope.rcpt_to
        ++ lower_domain (split (full_address e.cfg.me (rcpt_argument msg)) at_sign) ∷ []

add_rcpt_changed :
    (t : Session)
    → (add_rcpt t).envelope.rcpt_to ≢ t.envelope.rcpt_to
    → (add_rcpt t).envelope.rcpt_to ≡ t.envelope.rcpt_to ++ t.last_rcpt_to ∷ []
unfolding add_rcpt answer out
add_rcpt_changed t c = elim (Bool-cases (is_string_in_slice t.last_rcpt_to t.envelope.rcpt_to)) [
  | inl known ↦ absurd (c (rw known refl))
  | inr new ↦ rw new refl
]

module _ (e : Env) (p : LeaveView e) (none_at_rcptto : e.plugins at_rcptto ≡ []) where
  relay_rcpt-Authorised :
      (d : Bytes) (s : Session)
      → s.relay_granted ≡ false
      → (view (relay_rcpt e d (s, false))).0.rcpt_to ≢ (view s).0.rcpt_to
      → IsAuthorised e s d s.last_rcpt_to
        × ((view (relay_rcpt e d (s, false))).0.rcpt_to ≡ s.envelope.rcpt_to ++ s.last_rcpt_to ∷ [])
  unfolding relay_rcpt
  relay_rcpt-Authorised d s g changed =
      go (check_relay e d s) refl (check_relay-view e p d s) changed
    where
      go :
          (m : Flow)
          → check_relay e d s ≡ m
          → view (session_of m) ≡ view s
          → (view (session_of (m >>= λ granted. done (add_rcpt granted)))).0.rcpt_to
            ≢ (view s).0.rcpt_to
          → IsAuthorised e s d s.last_rcpt_to
            × ((view (session_of (m >>= λ granted. done (add_rcpt granted)))).0.rcpt_to
                ≡ s.envelope.rcpt_to ++ s.last_rcpt_to ∷ [])
      go (done t) h v c = absurd (c (ap (λ (x : View). x.0.rcpt_to) v))
      go (next t) h v c =
          let (authorised, address) = check_relay-next e d s t g h in
          let same : t.envelope.rcpt_to ≡ s.envelope.rcpt_to = ap (λ (x : View). x.0.rcpt_to) v in
          let added = add_rcpt_changed t (λ k. c (k ∙ same)) in
          (authorised, added ∙ rw (same, address) refl)

  take_address-Accepted :
      (a : Bytes) (s : Session)
      → (view (take_address e a s)).0.rcpt_to ≢ (view s).0.rcpt_to
      → (e.parse_address a ≡ true)
        × (length (split a at_sign) ≡ 2)
        × IsAuthorised e s (part 1 (split a at_sign)) (lower_domain (split a at_sign))
        × ((view (take_address e a s)).0.rcpt_to
            ≡ s.envelope.rcpt_to ++ lower_domain (split a at_sign) ∷ [])
  unfolding take_address bad_address answer out exec_smtpd_plugins run_first
  take_address-Accepted a s changed =
      let parts = split a at_sign in
      let s' = record s { last_rcpt_to = lower_domain parts; relay_granted = false } in
      elim (Bool-cases (not (e.parse_address a))) [
        | inl bad ↦ absurd (changed (rw bad))
        | inr good ↦ elim (Bool-cases (not (length parts == 2))) [
          | inl bad ↦ absurd (changed (rw (good, bad)))
          | inr two ↦
              let (granted, added) =
                relay_rcpt-Authorised (part 1 parts) s' refl
                  (rw (good, two, none_at_rcptto, run_first) at changed) in
              (ground arith, ground arith, granted, rw (good, two, none_at_rcptto, run_first) added)
        ]
      ]

  -- A recipient enters the envelope only in a transaction, for an address that parses and has one
  -- `@`, and only if its domain is a host of the server (where the address must be valid if the
  -- host is local), the user of the session may relay, or the client's address may: the server is
  -- no open relay. What enters, at the end of the recipients, is exactly that address, with its
  -- domain in lower case. No plugin is registered at `rcptto`, and the others leave the envelope alone.
  pub rcpt_added-IsAccepted :
      (msg : List Bytes) (s : Session)
      → (smtp_rcpt_to e msg s).envelope.rcpt_to ≢ s.envelope.rcpt_to
      → IsAccepted e msg s
  unfolding smtp_rcpt_to answer out
  rcpt_added-IsAccepted msg s changed =
      let s' = record s { last_rcpt_to = []; rcpt_count = s.rcpt_count + 1 } in
      let max = e.cfg.max_rcpt_to in
      let given = rcpt_argument msg in
      elim (Bool-cases (not (max == 0) && ltb max (s.rcpt_count + 1))) [
        | inl over ↦ absurd (changed (rw over))
        | inr within ↦ elim (Bool-cases (not s.seen_mail)) [
          | inl early ↦ absurd (changed (rw (within, early)))
          | inr begun ↦ elim (Bool-cases (bad_rcpt_syntax msg)) [
            | inl bad ↦ absurd (changed (rw (within, begun, bad)))
            | inr good ↦ elim (Bool-cases (length given == 0)) [
              | inl nothing ↦ absurd (changed (rw (within, begun, good, nothing)))
              | inr something ↦
                  let (parsed, two, granted, added) =
                    take_address-Accepted (full_address e.cfg.me given) s'
                      (rw (within, begun, good, something) at changed) in
                  record {
                    begun = ground arith;
                    parsed = parsed;
                    two_parts = two;
                    authorised = granted;
                    added = rw (within, begun, good, something) added;
                  }
            ]
          ]
        ]
      ]

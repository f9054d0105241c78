-- ===== src/Accounts/Served.antt =====
-- The tables as the directory that a session asks.
use tmail.Prelude.{
  arith, Bytes, ◌≡◌, ℕ, true, Bool, none, some, Option, refl, ◌∙◌, ap, ◌≢◌, ◌∷◌, ◌++◌, [], false,
  List, inl, inr, length,
}
use tmail.Text.{to_lower, split, part}
use tmail.Directory.{
  Directory, Query, row, record_not_found, query_error, User, UserError, no_such_user,
  wrong_password, other_error, RcptHost,
}
use tmail.Accounts.{Tables, Returned, value, error, not_found, find_host, query}
use tmail.Accounts.Hosts
use tmail.Accounts.Hosts.{ip_can_relay}
use tmail.Accounts.Users.{UserWorld, Login, logged, bad_password, user_get}
use tmail.Accounts.LocalRcpt.{is_valid_local_rcpt}
use tmail.Accounts.LocalRcpt.Steps.{healthy}
use tmail.Accounts.LocalRcpt.Spec.{Deliverable, is_valid_local_rcpt_iff}
use tmail.Smtpd.Relay.{IsHosted, rcpt_added-IsAccepted}
use tmail.Smtpd.View.{LeaveView}
use tmail.Smtpd.Mail.{at_sign}
use tmail.Smtpd.Session.{Env, Session, at_rcptto}
use tmail.Smtpd.Rcpt.{full_address, rcpt_argument, lower_domain, smtp_rcpt_to, user_relay}
use mathlib.Core.Path.{subst}

abbrev pub as_row : {A : Type 0} → Returned A → Query A
as_row (value a) = row a
as_row (error not_found) = record_not_found
as_row (error e) = query_error

abbrev pub as_test : Returned Bool → Option Bool
as_test (value b) = some b
as_test (error e) = none

abbrev pub as_login : Returned Login → Option User × Option UserError
as_login (value (logged u)) = (some u, none)
as_login (value (bad_password u)) = (some u, some wrong_password)
as_login (error not_found) = (none, some no_such_user)
as_login (error e) = (none, some other_error)

-- What the operations answer on tables of which no call fails, where `IsValidLocalRcpt` may call
-- itself `fuel` times.
abbrev pub directory_on : UserWorld → ℕ → Tables → Directory
directory_on w fuel t = record {
  rcpthost_get = λ d. as_row (Hosts.rcpthost_get d (healthy t)).0;
  is_valid_local_rcpt = λ a. as_test (is_valid_local_rcpt fuel a (healthy t)).0;
  ip_can_relay = λ a. as_test (ip_can_relay a (healthy t)).0;
  user_get = λ login passwd. as_login (user_get w login passwd (healthy t)).0;
}

as_test-value : (r : Returned Bool) → as_test r ≡ some true → r ≡ value true
as_test-value (value b) h = cc
as_test-value (error e) h = cc

rcpthost_get-found :
    (d : Bytes) (t : Tables) (h : RcptHost)
    → as_row (Hosts.rcpthost_get d (healthy t)).0 ≡ row h
    → find_host d t.hosts ≡ some h
unfolding Hosts.rcpthost_get query
rcpthost_get-found d t h e = go (find_host d t.hosts) refl
  where
    go : (o : Option RcptHost) → find_host d t.hosts ≡ o → find_host d t.hosts ≡ some h
    go none k = cc (rw k at e)
    go (some x) k = let same : x ≡ h = ground (arith, rw k at e) in k ∙ ap some same

IsHosted-tables :
    (w : UserWorld) (fuel : ℕ) (t : Tables) (domain address : Bytes)
    → IsHosted (directory_on w fuel t) domain address
    → (h : RcptHost) × (find_host domain t.hosts ≡ some h)
      × (h.is_local ≡ true → Deliverable t (to_lower address))
IsHosted-tables w fuel t domain address (h, found, valid) = (
  h,
  rcpthost_get-found domain t h found,
  λ local. (is_valid_local_rcpt_iff t (to_lower address)).0 (fuel, as_test-value _ (valid local)),
)

-- What the envelope and the tables say of a recipient that was accepted.
pub record Served (e : Env) (t : Tables) (msg : List Bytes) (s : Session) : Type 0 where
  pub local_part : Bytes
  pub domain : Bytes
  pub host : RcptHost
  pub parts : split (full_address e.cfg.me (rcpt_argument msg)) at_sign ≡ local_part ∷ domain ∷ []
  pub entered :
      (smtp_rcpt_to e msg s).envelope.rcpt_to
      ≡ s.envelope.rcpt_to ++ (local_part ++ (at_sign ++ to_lower domain)) ∷ []
  pub hosted : find_host domain t.hosts ≡ some host
  pub deliverable :
      host.is_local ≡ true → Deliverable t (to_lower (local_part ++ (at_sign ++ to_lower domain)))

parts-Served :
    (e : Env) (w : UserWorld) (fuel : ℕ) (t : Tables) (msg : List Bytes) (s : Session)
    (parts : List Bytes)
    → split (full_address e.cfg.me (rcpt_argument msg)) at_sign ≡ parts
    → length parts ≡ 2
    → (smtp_rcpt_to e msg s).envelope.rcpt_to ≡ s.envelope.rcpt_to ++ lower_domain parts ∷ []
    → IsHosted (directory_on w fuel t) (part 1 parts) (lower_domain parts)
    → Served e t msg s
unfolding lower_domain part
parts-Served e w fuel t msg s [] k n added hosted = absurd (omega arith)
parts-Served e w fuel t msg s (l ∷ []) k n added hosted = absurd (omega arith)
parts-Served e w fuel t msg s (l ∷ d ∷ []) k n added hosted =
    let (h, found, place) = IsHosted-tables w fuel t d (l ++ (at_sign ++ to_lower d)) hosted in
    record {
      local_part = l;
      domain = d;
      host = h;
      parts = k;
      entered = added;
      hosted = found;
      deliverable = place;
    }
parts-Served e w fuel t msg s (l ∷ d ∷ m ∷ rest) k n added hosted = absurd (omega arith)

-- Where the session asks the tables, and neither its user nor the client's address may relay, a RCPT
-- that changes the recipients adds one address to them, the given local part at the given domain in
-- lower case, only if the tables have a host of that domain, and if the host is local only if they
-- have a place for the address: a mailbox, an alias or a catchall. No plugin is registered at
-- `rcptto`, and the others leave the envelope alone.
pub rcpt_added-Served :
    (e : Env) (p : LeaveView e) (w : UserWorld) (fuel : ℕ) (t : Tables) (msg : List Bytes)
    (s : Session)
    → e.plugins at_rcptto ≡ []
    → e.directory ≡ directory_on w fuel t
    → user_relay s.user ≡ false
    → e.directory.ip_can_relay s.remote_addr ≢ some true
    → (smtp_rcpt_to e msg s).envelope.rcpt_to ≢ s.envelope.rcpt_to
    → Served e t msg s
rcpt_added-Served e p w fuel t msg s none_at tables no_user no_ip changed =
    let taken = rcpt_added-IsAccepted e p none_at msg s changed in
    let parts = split (full_address e.cfg.me (rcpt_argument msg)) at_sign in
    elim taken.authorised [
      | inl hosted ↦
          parts-Served e w fuel t msg s parts refl taken.two_parts taken.added
            (subst (λ d. IsHosted d (part 1 parts) (lower_domain parts)) tables hosted)
      | inr (inl by_user) ↦ cc (← by_user, no_user)
      | inr (inr by_ip) ↦ absurd (no_ip by_ip)
    ]

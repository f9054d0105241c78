-- ===== src/Examples/Accounts.antt =====
-- Tests of the operations on accounts, and their theorems at tables with aliases of domains.
use tmail.Prelude.{
  Bytes, ◌≡◌, ◌∷◌, [], ℕ, true, false, Bool, some, codes, refl, sym, ◌++◌, inl, inr, ◌⊎◌, eq_bytes,
  if◌then◌else◌, ◌<◌, ◌≢◌, ◌↔◌, arith,
}
use mathlib.Core.Path.{subst}
use tmail.Directory.{Alias, User, RcptHost}
use tmail.Text.{has_byte, split, to_lower, lower_byte}
use tmail.Accounts.{
  Tables, first_with, find_user, find_alias, value, error, still_running, find_catchall,
}
use tmail.Accounts.Calls.{Call, CallWorld, run_calls, run_call}
use tmail.Accounts.Calls
use tmail.Prelude.{eq_bytes_iff, arith}
use tmail.Text.{split, part}
use tmail.Accounts.{attempt}
use tmail.Accounts.LogsIn.{Matches, IsNamed, user_add-logged}
use tmail.Accounts.Deletion.{AllOrNothing, alias_del-AllOrNothing}
use tmail.Accounts.Hosts.{rcpthost_get, save_host}
use tmail.Accounts.Users.{
  user_add, user_get, logged, with_mailbox, claim_host, initial, check_catchall,
  user_get_catchall_for_domain, save_user, UserWorld,
}
use tmail.Accounts.LocalRcpt.{is_valid_local_rcpt, has_box}
use tmail.Text.Parts.{IsWhole-of, IsWhole}
use tmail.Accounts.LocalRcpt.Steps.{has_place, healthy}
use tmail.Accounts.LocalRcpt.Spec.{Deliverable, is_valid_local_rcpt_iff}
use tmail.Accounts.LocalRcpt.Ends.{
  AliasLoop, GoesDown, is_valid_local_rcpt_ends, alias_loop_never_ends,
}
use tmail.Accounts.Rows.{first_with-key, first_with-All}
use tmail.Accounts.Sound.{IsSound}
use tmail.Accounts.Aliases.{
  alias_add, alias_del, alias_exists, alias_get, check_alias, check_domain, add_domain, check_pipe,
  check_deliver_to, check_rcpts, checked_rcpt, check_rcpt, check_target, or_refuse, joined_rcpts,
  save_alias, domain_part, alias_failure, delete_rows, delete_domain, remove_alias,
}
use tmail.Accounts.Hosts.{rcpthost_add, count_hosts, save_host, rcpthost_get, remove_host}
use tmail.Accounts.{
  transaction, without_key, find_host, query, exec, insert, optional, exists_row, guard,
}
use tmail.Text.{trim_space, split_at_byte, join}
use tmail.Prelude.{eq_bytes}
use tmail.Accounts.Sound.Kept.{run_calls-IsSound}

abbrev no_rows : Tables
no_rows = record { users = []; hosts = []; aliases = []; mailboxes = []; relay_ips = [] }

abbrev a_org : Bytes
a_org = codes "a.org"

abbrev b_org : Bytes
b_org = codes "b.org"

abbrev c_org : Bytes
c_org = codes "c.org"

abbrev pub user_libraries : UserWorld
user_libraries = record {
  dovecot_enabled = true;
  default_quota = codes "1G";
  home_base = codes "/home";
  parse_address = λ s. true;
  bcrypt = λ p. some p;
  matches = λ h p. eq_bytes h p;
  new_salt = some (codes "$6$salt");
  sha512_crypt = λ p s. some p;
}

abbrev libraries : CallWorld
libraries = record { user_world = user_libraries; look_path = λ p. true; parse_ip = λ i. true }

abbrev bob : Bytes
bob = codes "Bob@a.org"

abbrev adds_bob : Call
adds_bob = Calls.adds_user bob (codes "secret") [] true true true

no_rows-IsSound : IsSound no_rows
no_rows-IsSound = record {
  users = tt;
  users_apart = tt;
  hosts = tt;
  hosts_apart = tt;
  aliases = tt;
  aliases_apart = tt;
}

run_calls-IsSound_example :
    IsSound
      (run_calls libraries
        (adds_bob ∷ Calls.adds_alias c_org a_org [] false ∷ Calls.deletes_user bob ∷ [])
        (record { tables = no_rows; faults = [] })).tables
run_calls-IsSound_example =
    run_calls-IsSound libraries
      (adds_bob ∷ Calls.adds_alias c_org a_org [] false ∷ Calls.deletes_user bob ∷ [])
      (record { tables = no_rows; faults = [] }) no_rows-IsSound

abbrev domain_alias : Bytes → Bytes → Alias
domain_alias from to = record {
  alias = from;
  deliver_to = to;
  pipe = [];
  is_dom_alias = true;
  is_mini_list = false;
}

abbrev one_alias : Tables
one_alias = record {
  users = [];
  hosts = [];
  aliases = domain_alias c_org a_org ∷ [];
  mailboxes = [];
  relay_ips = [];
}

is_valid_local_rcpt_iff_example :
    ((n : ℕ) × ((is_valid_local_rcpt n (codes "joe@c.org") (healthy one_alias)).0 ≡ value true))
    ↔ Deliverable one_alias (codes "joe@c.org")
is_valid_local_rcpt_iff_example = is_valid_local_rcpt_iff one_alias (codes "joe@c.org")

abbrev rank : Bytes → ℕ
rank d = if eq_bytes d c_org then 1 else 0

one_alias-GoesDown : GoesDown one_alias rank
unfolding find_alias eq_bytes
one_alias-GoesDown d a h =
    let key = first_with-key (λ x. x.alias) d one_alias.aliases a h in
    let (from, to) =
      first_with-All (λ x. x.alias) (λ x. (x.alias ≡ c_org) × (x.deliver_to ≡ a_org)) d
        one_alias.aliases a ((refl, refl), tt) h in
    subst (λ x. rank a.deliver_to < rank x) key (rw (from, to) (omega arith))

below_two : (l d : Bytes) → split (codes "joe@c.org") (64 ∷ []) ≡ l ∷ d ∷ [] → rank d < 2
below_two l d h = go (eq_bytes d c_org)
  where
    go : (b : Bool) → (if b then 1 else 0) < 2
    go true = omega arith
    go false = omega arith

is_valid_local_rcpt_ends_example :
    (is_valid_local_rcpt 2 (codes "joe@c.org") (healthy one_alias)).0 ≢ error still_running
is_valid_local_rcpt_ends_example =
    is_valid_local_rcpt_ends one_alias rank one_alias-GoesDown 2 (codes "joe@c.org") (omega arith)
      below_two

-- Two domains that are aliases of one another.
abbrev two_aliases : Tables
two_aliases = record {
  users = [];
  hosts = [];
  aliases = domain_alias a_org b_org ∷ domain_alias b_org a_org ∷ [];
  mailboxes = [];
  relay_ips = [];
}

abbrev Looping : Bytes → Type 0
Looping d = (d ≡ a_org) ⊎ (d ≡ b_org)

two_aliases-AliasLoop : AliasLoop two_aliases (codes "joe") Looping
unfolding has_byte find_alias first_with eq_bytes to_lower lower_byte find_user has_box
two_aliases-AliasLoop = record {
  leads = λ d i. elim i [
    | inl a ↦ (domain_alias a_org b_org, rw a refl, inr refl)
    | inr b ↦ (domain_alias b_org a_org, rw b refl, inl refl)
  ];
  known = λ d i. elim i [ inl a ↦ rw a refl | inr b ↦ rw b refl ];
  whole = λ d i. elim i [
    | inl a ↦ subst (IsWhole 64) (sym a) (IsWhole-of 64 a_org refl)
    | inr b ↦ subst (IsWhole 64) (sym b) (IsWhole-of 64 b_org refl)
  ];
  no_place = λ d i. elim i [
    | inl a ↦ subst (λ x. has_place two_aliases (codes "joe" ++ (64 ∷ x)) ≡ false) (sym a) refl
    | inr b ↦ subst (λ x. has_place two_aliases (codes "joe" ++ (64 ∷ x)) ≡ false) (sym b) refl
  ];
}

joe-IsWhole : IsWhole 64 (codes "joe")
unfolding has_byte
joe-IsWhole = IsWhole-of 64 (codes "joe") refl

alias_loop_never_ends_example :
    (is_valid_local_rcpt 9 (codes "joe@a.org") (healthy two_aliases)).0 ≡ error still_running
alias_loop_never_ends_example =
    alias_loop_never_ends two_aliases (codes "joe") Looping joe-IsWhole two_aliases-AliasLoop 9
      a_org (inl refl)

-- The operations themselves make the circle: an alias may be deleted while another leads to it.
abbrev made : Tables
made =
    (run_calls libraries
      (Calls.adds_host c_org true false
        ∷ Calls.adds_alias a_org c_org [] false
        ∷ Calls.adds_alias b_org a_org [] false
        ∷ Calls.deletes_alias a_org
        ∷ Calls.adds_alias a_org b_org [] false
        ∷ [])
      (record { tables = no_rows; faults = [] })).tables

made_circle : made.aliases ≡ domain_alias b_org a_org ∷ domain_alias a_org b_org ∷ []
unfolding run_calls run_call alias_add rcpthost_add alias_del alias_exists alias_get check_alias
    check_domain add_domain check_pipe check_deliver_to check_rcpts checked_rcpt check_rcpt
    check_target or_refuse joined_rcpts save_alias domain_part count_hosts save_host rcpthost_get
    alias_failure transaction delete_rows delete_domain remove_host remove_alias without_key
    first_with find_host find_alias query exec insert optional exists_row guard eq_bytes to_lower
    lower_byte trim_space split split_at_byte join has_byte
made_circle = refl

bob-Matches : Matches user_libraries
bob-Matches passwd hash h =
    let e : passwd ≡ hash = ground arith in (eq_bytes_iff hash passwd).1 (sym e)

bob_is_added :
    (user_add user_libraries bob
      (codes "secret")
      []
      true
      true
      true
      (record { tables = no_rows; faults = [] })).0
    ≡ value tt
unfolding user_add guard with_mailbox optional rcpthost_get query find_host first_with claim_host
    save_host insert initial check_catchall user_get_catchall_for_domain find_catchall attempt
    save_user find_user to_lower lower_byte split part eq_bytes
bob_is_added = refl

user_add-logged_example :
    (u : User) × ((user_get user_libraries (to_lower bob) (codes "secret") (
        healthy
          (user_add user_libraries bob
            (codes "secret")
            []
            true
            true
            true
            (record { tables = no_rows; faults = [] })).1.tables)).0
      ≡ value (logged u))
    × IsNamed (to_lower bob) true true true u
user_add-logged_example =
    user_add-logged user_libraries bob-Matches bob (codes "secret") [] true true true
      (record { tables = no_rows; faults = [] }) bob_is_added

-- The call that deletes the row of the alias fails, after its host was deleted.
alias_del-AllOrNothing_example :
    AllOrNothing c_org one_alias
      (alias_del c_org (record { tables = one_alias; faults = false ∷ false ∷ true ∷ [] }))
alias_del-AllOrNothing_example =
    alias_del-AllOrNothing c_org (record { tables = one_alias; faults = false ∷ false ∷ true ∷ [] })

abbrev a_org_host : RcptHost
a_org_host = record { hostname = a_org; is_local = true; is_alias = false }

abbrev pub hosted : Tables
hosted = record {
  users = [];
  hosts = a_org_host ∷ [];
  aliases =
      record (domain_alias c_org a_org) { alias = codes "bob@a.org"; is_dom_alias = false } ∷ [];
  mailboxes = [];
  relay_ips = [];
}

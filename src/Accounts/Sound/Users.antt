-- ===== src/Accounts/Sound/Users.antt =====
-- The operations of core/user.go keep the tables sound.
pub mod Domains
pub mod Password
pub mod Replaced
use tmail.Accounts.Sound.Hosts.{save_host-Triple, is_none, to_lower_idem}
use tmail.Prelude.{
  Bytes, ◌≡◌, ◌≤◌, ◌∙◌, ◌∷◌, true, false, Bool, none, ◌++◌, if◌then◌else◌, [], some, Option, refl,
  arith, not, length, All-append,
}
use tmail.Text.{to_lower, split}
use tmail.Directory.{User, RcptHost}
use tmail.Accounts.Hosts.{rcpthost_get}
use tmail.Accounts.{Tables, find_catchall, exists_row, is_some, find_user, pure}
use tmail.Accounts.Users.{
  user_get_by_login, user_get_catchall_for_domain, user_exists, check_catchall, remove_user,
  user_del, claim_host, initial, with_mailbox, save_user, user_add, UserWorld,
}
use tmail.Accounts.Rows.{Apart-snoc, without_key-All, without_key-Apart, first_with-none}
use tmail.Accounts.Sound.Users.Domains.{All-apart, domain-lower}
use tmail.Accounts.Triple.{
  guard-Triple, Triple, Any, >>=-Triple, guard-then, optional-Triple, exec-Triple, pure-Triple,
  raise-Triple, insert-Triple, attempt-then, weaken-Triple,
}
use tmail.Accounts.Sound.{IsSound, domain_of, IsSoundUser}

-- A catchall for whose domain there is none yet.
abbrev Fresh : User → Tables → Type 0
Fresh u t = u.is_catchall ≡ true → find_catchall (b'%' ∷ to_lower (domain_of u)) t.users ≡ none

no_other : {A : Type 0} (o : Option A) → not (is_some o) ≡ true → o ≡ none
no_other none h = refl
no_other (some a) h = cc

check_catchall-Triple :
    {K : Tables → Type 0} (b : Bool) (d : Bytes)
    → Triple IsSound K
        (check_catchall b d)
        (λ _ t. b ≡ true → find_catchall (b'%' ∷ to_lower d) t.users ≡ none)
unfolding check_catchall user_get_catchall_for_domain
check_catchall-Triple false d = pure-Triple IsSound (λ t k h. cc)
check_catchall-Triple true d =
    >>=-Triple IsSound (optional-Triple IsSound _)
      λ o. guard-Triple IsSound _ _ (λ t none_yet k _. k.1 ∙ no_other o none_yet)

claim_host-Triple :
    {K : Tables → Type 0} (domain : Bytes) (o : Option RcptHost)
    → to_lower domain ≡ domain
    → Triple IsSound K (claim_host domain o) (Any IsSound)
unfolding claim_host
claim_host-Triple domain none lower = save_host-Triple _ lower
claim_host-Triple domain (some h) lower =
    guard-then IsSound _ _ (λ _. guard-Triple IsSound _ _ (λ t b k. tt))

initial-Triple : {K : Tables → Type 0} (s : Bytes) → Triple IsSound K (initial s) (λ _ t. K t)
unfolding initial
initial-Triple [] = raise-Triple IsSound
initial-Triple (c ∷ s) = pure-Triple IsSound (λ t k. k)

-- A user that may be saved, if its login is not taken.
Ready : User → Tables → Type 0
Ready u t = IsSoundUser u × Fresh u t

with_mailbox-Triple :
    {K : Tables → Type 0} (w : UserWorld) (quota : Bytes) (u : User)
    → to_lower u.login ≡ u.login
    → 4 ≤ length u.login
    → length u.login ≤ 256
    → u.have_mailbox ≡ true
    → Triple IsSound K (with_mailbox w quota u) Ready
unfolding with_mailbox rcpthost_get Ready
with_mailbox-Triple w quota u lower long short box = guard-then IsSound _ _ λ _.
    guard-then IsSound _ _ λ _. guard-then IsSound _ _ λ two.
      let parts : length (split u.login (64 ∷ [])) ≡ 2 = ground arith in
      >>=-Triple IsSound (optional-Triple IsSound _) λ host.
        >>=-Triple IsSound (claim_host-Triple _ host (domain-lower u parts lower)) λ _.
          >>=-Triple IsSound (initial-Triple _) λ d. >>=-Triple IsSound (initial-Triple _) λ l.
            >>=-Triple IsSound (check_catchall-Triple _ _) λ _. pure-Triple IsSound λ t fresh. (
              record {
                lower = lower;
                long = long;
                short = short;
                address = λ _. parts;
                catchall = λ _. box;
              },
              fresh,
            )

Ready-Triple :
    {K : Tables → Type 0} (w : UserWorld) (quota : Bytes) (u : User)
    → to_lower u.login ≡ u.login
    → 4 ≤ length u.login
    → length u.login ≤ 256
    → (u.is_catchall ≡ true → u.have_mailbox ≡ true)
    → (b : Bool) → u.have_mailbox ≡ b
    → Triple IsSound K (if b then with_mailbox w quota u else pure u) Ready
Ready-Triple w quota u lower long short boxed true box =
    with_mailbox-Triple w quota u lower long short box
Ready-Triple w quota u lower long short boxed false no_box =
    unfold Ready in
    pure-Triple IsSound λ t k. (
      record {
        lower = lower;
        long = long;
        short = short;
        address = λ box. cc (← box, ← no_box);
        catchall = boxed;
      },
      λ c. let box = boxed c in cc (← box, ← no_box),
    )

hashed-Ready :
    (u : User) (hash dove : Bytes) (t : Tables)
    → Ready u t
    → Ready (record u { passwd = hash; dove_passwd = dove }) t
unfolding Ready
hashed-Ready u hash dove t (s, fresh) = (
  record {
    lower = s.lower;
    long = s.long;
    short = s.short;
    address = s.address;
    catchall = s.catchall;
  },
  fresh,
)

with_user-IsSound :
    (t : Tables) (u : User)
    → Ready u t
    → is_some (find_user u.login t.users) ≡ false
    → IsSound t
    → IsSound (record t { users = t.users ++ u ∷ [] })
unfolding find_user Ready
with_user-IsSound t u (ok, fresh) new s = record {
  users = All-append _ t.users (u ∷ []) s.users (ok, tt);
  users_apart = Apart-snoc _ t.users u s.users_apart (
      All-apart t.users u ok fresh (first_with-none (λ x. x.login) u.login t.users (is_none _ new))
        s.users);
  hosts = s.hosts;
  hosts_apart = s.hosts_apart;
  aliases = s.aliases;
  aliases_apart = s.aliases_apart;
}

save_user-Triple : (u : User) → Triple IsSound (Ready u) (save_user u) (Any IsSound)
unfolding save_user
save_user-Triple u = insert-Triple IsSound _ _ (λ t i p new. with_user-IsSound t u p new i)

pub user_add-Triple :
    {K : Tables → Type 0} (w : UserWorld) (login passwd quota : Bytes)
    (have_mailbox auth_relay is_catchall : Bool)
    → Triple IsSound K
        (user_add w login passwd quota have_mailbox auth_relay is_catchall)
        (Any IsSound)
unfolding user_add
user_add-Triple w given passwd quota have_mailbox auth_relay is_catchall =
    let u : User = record {
      login = to_lower given;
      passwd = [];
      dove_passwd = [];
      auth_relay = auth_relay;
      have_mailbox = have_mailbox;
      is_catchall = is_catchall;
      mailbox_quota = [];
      home = [];
    } in
    guard-then IsSound _ _ λ short. guard-then IsSound _ _ λ long. guard-then IsSound _ _ λ _.
      guard-then IsSound _ _ λ boxed.
        >>=-Triple IsSound
          (Ready-Triple w quota u (to_lower_idem given) (ground arith) (ground arith)
            (λ c. ground arith) have_mailbox refl)
          λ u'. attempt-then IsSound _ λ hashed. attempt-then IsSound _ λ salt.
            attempt-then IsSound _ λ dove.
              weaken-Triple IsSound (hashed-Ready u' hashed dove)
                (save_user-Triple (record u' { passwd = hashed; dove_passwd = dove }))

pub user_exists-Triple :
    {K : Tables → Type 0} (login : Bytes) → Triple IsSound K (user_exists login) (λ b t. K t)
unfolding user_exists exists_row user_get_by_login
user_exists-Triple login =
    >>=-Triple IsSound (optional-Triple IsSound _) λ o. pure-Triple IsSound (λ t k. k.0)

without_user-IsSound :
    (t : Tables) (k : Bytes) → IsSound t → IsSound (record t { users = remove_user k t.users })
unfolding remove_user
without_user-IsSound t k s = record {
  users = without_key-All (λ x. x.login) _ k t.users s.users;
  users_apart = without_key-Apart (λ x. x.login) _ k t.users s.users_apart;
  hosts = s.hosts;
  hosts_apart = s.hosts_apart;
  aliases = s.aliases;
  aliases_apart = s.aliases_apart;
}

pub user_del-Triple :
    {K : Tables → Type 0} (login : Bytes) → Triple IsSound K (user_del login) (Any IsSound)
unfolding user_del
user_del-Triple login = >>=-Triple IsSound (user_exists-Triple login) λ known.
    guard-then IsSound _ _ (λ _. exec-Triple IsSound _ (λ t i k. without_user-IsSound t login i))

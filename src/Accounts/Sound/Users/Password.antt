-- ===== src/Accounts/Sound/Users/Password.antt =====
-- `UserChangePassword` keeps the tables sound.
use tmail.Prelude.{Bytes, ◌≡◌, true, false, Bool, if◌then◌else◌, some, refl, sym}
use tmail.Text.{to_lower}
use mathlib.Core.Path.{subst}
use tmail.Directory.{User}
use tmail.Accounts.{Tables, find_user, pure}
use tmail.Accounts.Users.{
  user_get_by_login, replace_user, new_dove_passwd, change_passwd, user_change_password, UserWorld,
}
use tmail.Accounts.Rows.{first_with-only, first_with-key}
use tmail.Accounts.Sound.Users.Replaced.{Keeps, replace_user-IsSoundUser, replace_user-Apart}
use tmail.Accounts.Triple.{
  Triple, Any, >>=-Triple, guard-then, exec-Triple, pure-Triple, attempt-then, query-Triple,
  weaken-Triple,
}
use tmail.Accounts.Sound.{IsSound, AreApart}

abbrev Found : User → Tables → Type 0
Found u t = find_user u.login t.users ≡ some u

new_dove_passwd-Triple :
    {K : Tables → Type 0} (w : UserWorld) (passwd : Bytes) (u v : User)
    → Keeps v u
    → Triple IsSound K (new_dove_passwd w passwd v) (λ x t. Keeps x u × K t)
unfolding new_dove_passwd
new_dove_passwd-Triple w passwd u v same = attempt-then IsSound _ λ salt.
    attempt-then IsSound _ λ dove. pure-Triple IsSound λ t k. (
      record {
        login = same.login;
        is_catchall = same.is_catchall;
        have_mailbox = same.have_mailbox;
      },
      k,
    )

replaced-IsSound :
    (t : Tables) (u v : User)
    → Keeps v u
    → Found u t
    → IsSound t
    → IsSound (record t { users = replace_user v t.users })
unfolding find_user
replaced-IsSound t u v same found s =
    let only =
      first_with-only (λ x. x.login) AreApart (λ x y a. a.logins) u.login t.users u s.users_apart
        found in
    record {
      users = replace_user-IsSoundUser u v same t.users only s.users;
      users_apart = replace_user-Apart u v same t.users only s.users_apart;
      hosts = s.hosts;
      hosts_apart = s.hosts_apart;
      aliases = s.aliases;
      aliases_apart = s.aliases_apart;
    }

change_passwd-Triple :
    (w : UserWorld) (passwd : Bytes) (u : User)
    → Triple IsSound (Found u) (change_passwd w passwd u) (Any IsSound)
unfolding change_passwd
change_passwd-Triple w passwd u = guard-then IsSound _ _ λ _. attempt-then IsSound _ λ hashed.
    >>=-Triple IsSound (kept u.have_mailbox hashed)
      λ v. exec-Triple IsSound _ (λ t i k. replaced-IsSound t u v k.0 k.1 i)
  where
    kept :
        (b : Bool) (hashed : Bytes)
        → Triple IsSound
            (Found u)
            (if b
              then new_dove_passwd w passwd (record u { passwd = hashed })
              else pure (record u { passwd = hashed }))
            (λ v t. Keeps v u × Found u t)
    kept true hashed =
        new_dove_passwd-Triple w passwd u _
          (record { login = refl; is_catchall = refl; have_mailbox = refl })
    kept false hashed =
        pure-Triple IsSound
          (λ t k. (record { login = refl; is_catchall = refl; have_mailbox = refl }, k))

pub user_change_password-Triple :
    {K : Tables → Type 0} (w : UserWorld) (login passwd : Bytes)
    → Triple IsSound K (user_change_password w login passwd) (Any IsSound)
unfolding user_change_password user_get_by_login find_user
user_change_password-Triple w login passwd =
    >>=-Triple IsSound (query-Triple IsSound _)
      λ u. weaken-Triple IsSound (λ t k. found t u k.1) (change_passwd-Triple w passwd u)
  where
    found : (t : Tables) (u : User) → find_user (to_lower login) t.users ≡ some u → Found u t
    found t u h =
        let key = first_with-key (λ x. x.login) (to_lower login) t.users u h in
        subst (λ k. find_user k t.users ≡ some u) (sym key) h

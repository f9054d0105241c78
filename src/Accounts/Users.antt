-- ===== src/Accounts/Users.antt =====
-- core/user.go.
use tmail.Prelude.{
  Bytes, ◌&&◌, ◌||◌, ◌∷◌, ◌++◌, ◌==◌, if◌then◌else◌, [], true, false, Bool, none, some, Option,
  List, not, ltb, length, eq_bytes,
}
use tmail.Text.{to_lower, split, part}
use tmail.Directory.{User, RcptHost}
use tmail.Accounts.{
  panicked, attempt, Action, Done, pure, raise, guard, query, exec, insert, optional, exists_row,
  find_user, find_catchall, is_some, without_key, ◌>>◌, ◌>>=◌,
}
use tmail.Accounts.Hosts.{rcpthost_get, save_host}

-- The configuration, and the libraries: net/mail, bcrypt, sha512_crypt, and the salt that is made of
-- a new UUID. `none` is an error.
pub record UserWorld : Type 0 where
  pub dovecot_enabled : Bool
  pub default_quota : Bytes
  pub home_base : Bytes
  pub parse_address : Bytes → Bool
  pub bcrypt : Bytes → Option Bytes
  pub matches : Bytes → Bytes → Bool  -- the hash, and the password
  pub new_salt : Option Bytes
  pub sha512_crypt : Bytes → Bytes → Option Bytes

-- `UserGetByLogin`
unfoldable pub user_get_by_login : Bytes → Action User
user_get_by_login login = query (λ t. find_user (to_lower login) t.users)

-- `UserGetCatchallForDomain`
unfoldable pub user_get_catchall_for_domain : Bytes → Action User
user_get_catchall_for_domain domain = query (λ t. find_catchall (b'%' ∷ to_lower domain) t.users)

-- `UserExists`
unfoldable pub user_exists : Bytes → Action Bool
user_exists login = exists_row (user_get_by_login login)

-- `UserGet` gives a user also where the password is wrong.
pub data Login : Type 0 where
  logged : User → Login
  bad_password : User → Login

unfoldable pub user_get : UserWorld → Bytes → Bytes → Action Login
user_get w login passwd = do
  guard (not (length login == 0 || length passwd == 0)) "login or passwd is empty"
  user ← query (λ t. find_user login t.users)
  pure (if w.matches user.passwd passwd then logged user else bad_password user)

-- the first byte of a part, or the panic of the index
unfoldable pub initial : Bytes → Action Bytes
initial [] = raise panicked
initial (c ∷ s) = pure (c ∷ [])

-- `rcpthost must be in rcpthost && must be local && not an alias`
unfoldable pub claim_host : Bytes → Option RcptHost → Action Done
claim_host domain none = save_host (record { hostname = domain; is_local = true; is_alias = false })
claim_host domain (some h) = do
  guard h.is_local "rcpthost is declared as remote destination"
  guard (not h.is_alias) "rcpthost is an domain alias"

unfoldable pub check_catchall : Bool → Bytes → Action Done
check_catchall false domain = pure tt
check_catchall true domain = do
  other ← optional (user_get_catchall_for_domain domain)
  guard (not (is_some other)) "domain already have a catchall"

abbrev pub slash : Bytes
slash = 47 ∷ []

-- the block under `if haveMailbox`
unfoldable pub with_mailbox : UserWorld → Bytes → User → Action User
with_mailbox w quota user = do
  guard w.dovecot_enabled "you must enable (and install) Dovecot support"
  guard (w.parse_address user.login) "'login' must be a valid email address"
  let t = split user.login (64 ∷ [])
  guard (length t == 2) "'login' must be a valid email address"
  host ← optional (rcpthost_get (part 1 t))
  claim_host (part 1 t) host
  d ← initial (part 1 t)
  l ← initial (part 0 t)
  check_catchall user.is_catchall (part 1 t)
  pure (record user {
    mailbox_quota = if length quota == 0 then w.default_quota else quota;
    home =
        w.home_base
        ++ (slash ++ (d ++ (slash ++ (part 1 t ++ (slash ++ (l ++ (slash ++ part 0 t)))))));
  })

unfoldable pub save_user : User → Action Done
save_user u =
    insert (λ t. is_some (find_user u.login t.users)) (λ t. record t { users = t.users ++ u ∷ [] })

-- `UserAdd`
unfoldable pub user_add : UserWorld → Bytes → Bytes → Bytes → Bool → Bool → Bool → Action Done
user_add w given passwd quota have_mailbox auth_relay is_catchall = do
  let login = to_lower given
  guard (not (ltb 256 (length login))) "login must have less than 256 chars"
  guard (not (ltb (length login) 4)) "login must be at least 4 char"
  guard (not (ltb (length passwd) 6)) "password must be at least 6 chars length"
  guard (not (is_catchall && not have_mailbox)) "only users with mailbox can be catchall"
  let user : User = record {
    login = login;
    passwd = [];
    dove_passwd = [];
    auth_relay = auth_relay;
    have_mailbox = have_mailbox;
    is_catchall = is_catchall;
    mailbox_quota = [];
    home = [];
  }
  user' ← if have_mailbox then with_mailbox w quota user else pure user
  hashed ← attempt (w.bcrypt passwd)
  salt ← attempt w.new_salt
  dove ← attempt (w.sha512_crypt passwd salt)
  save_user (record user' { passwd = hashed; dove_passwd = dove })

unfoldable pub remove_user : Bytes → List User → List User
remove_user = without_key (λ x. x.login)

-- `UserDel`: the login is looked for in lower case, and deleted as it is given
unfoldable pub user_del : Bytes → Action Done
user_del login = do
  known ← user_exists login
  guard known "User doesn't exists"
  exec (λ t. record t { users = remove_user login t.users })

unfoldable pub replace_user : User → List User → List User
replace_user u [] = []
replace_user u (v ∷ vs) =
    if eq_bytes v.login u.login then u ∷ replace_user u vs else v ∷ replace_user u vs

unfoldable pub new_dove_passwd : UserWorld → Bytes → User → Action User
new_dove_passwd w passwd u = do
  salt ← attempt w.new_salt
  dove ← attempt (w.sha512_crypt passwd salt)
  pure (record u { dove_passwd = dove })

-- `ChangePasswd`
unfoldable pub change_passwd : UserWorld → Bytes → User → Action Done
change_passwd w passwd u = do
  guard (not (ltb (length passwd) 6)) "password must be at least 6 chars length"
  hashed ← attempt (w.bcrypt passwd)
  let v = record u { passwd = hashed }
  v' ← if u.have_mailbox then new_dove_passwd w passwd v else pure v
  exec (λ t. record t { users = replace_user v' t.users })

-- `UserChangePassword`
unfoldable pub user_change_password : UserWorld → Bytes → Bytes → Action Done
user_change_password w login passwd = do u ← user_get_by_login login; change_passwd w passwd u

-- ===== src/Accounts/Sound.antt =====
-- What the tables of accounts keep.
pub mod Hosts
pub mod Users
pub mod Aliases
pub mod Kept
use tmail.Prelude.{Bytes, ◌≡◌, ◌≢◌, ◌≤◌, ◌∷◌, [], true, All, length}
use tmail.Text.{to_lower, split, part}
use tmail.Directory.{User, Alias}
use tmail.Accounts.{Tables}
use tmail.Accounts.Rows.{Apart}

abbrev pub domain_of : User → Bytes
domain_of u = part 1 (split u.login (64 ∷ []))

-- A login is in lower case and has 4 to 256 bytes; it is an address if the user has a mailbox,
-- which a catchall has.
pub record IsSoundUser (u : User) : Type 0 where
  pub lower : to_lower u.login ≡ u.login
  pub long : 4 ≤ length u.login
  pub short : length u.login ≤ 256
  pub address : u.have_mailbox ≡ true → length (split u.login (64 ∷ [])) ≡ 2
  pub catchall : u.is_catchall ≡ true → u.have_mailbox ≡ true

-- Two users have two logins, and two catchalls two domains.
pub record AreApart (u v : User) : Type 0 where
  pub logins : u.login ≢ v.login
  pub domains : u.is_catchall ≡ true → v.is_catchall ≡ true → domain_of u ≢ domain_of v

-- An alias is in lower case, and a list is no domain.
pub record IsSoundAlias (a : Alias) : Type 0 where
  pub lower : to_lower a.alias ≡ a.alias
  pub mini_list : a.is_mini_list ≡ true → a.is_dom_alias ≢ true

pub record IsSound (t : Tables) : Type 0 where
  pub users : All IsSoundUser t.users
  pub users_apart : Apart AreApart t.users
  pub hosts : All (λ h. to_lower h.hostname ≡ h.hostname) t.hosts
  pub hosts_apart : Apart (λ h k. h.hostname ≢ k.hostname) t.hosts
  pub aliases : All IsSoundAlias t.aliases
  pub aliases_apart : Apart (λ a b. a.alias ≢ b.alias) t.aliases

-- ===== src/Directory.antt =====
-- The records of the accounts database, and what the server asks of it.
-- `Directory` is the interface between the SMTP session and the modules of core/user.go,
-- core/alias.go, core/rcpthost.go, core/smtpd_relay_ip.go and core/local.go.
use tmail.Prelude.{Bool, Option, Bytes}

pub record User : Type 0 where
  pub login : Bytes
  pub passwd : Bytes
  pub dove_passwd : Bytes
  pub auth_relay : Bool
  pub have_mailbox : Bool
  pub is_catchall : Bool
  pub mailbox_quota : Bytes
  pub home : Bytes

pub record RcptHost : Type 0 where
  pub hostname : Bytes
  pub is_local : Bool
  pub is_alias : Bool

pub record Alias : Type 0 where
  pub alias : Bytes
  pub deliver_to : Bytes
  pub pipe : Bytes
  pub is_dom_alias : Bool
  pub is_mini_list : Bool

-- What a query for one record gives: the record, `gorm.ErrRecordNotFound`, another error.
pub data Query {ℓ} (A : Type ℓ) : Type ℓ where
  row : A → Query A
  record_not_found : Query A
  query_error : Query A

-- The errors of `UserGet` that its caller tells apart.
pub data UserError : Type 0 where
  no_such_user wrong_password other_error : UserError

-- `none` is an error, where the result is a test. `user_get` gives the pair that `UserGet`
-- returns: a user may come with an error.
pub record Directory : Type 0 where
  pub rcpthost_get : Bytes → Query RcptHost
  pub is_valid_local_rcpt : Bytes → Option Bool
  pub ip_can_relay : Bytes → Option Bool
  pub user_get : Bytes → Bytes → Option User × Option UserError

-- ===== src/Accounts/Calls.antt =====
-- The functions of api/api.go that change users, aliases, addresses that may relay, and domains.
use tmail.Prelude.{Bytes, Bool, ◌∷◌, [], List}
use tmail.Accounts.{Action, Done, Db}
use tmail.Accounts.Users.{UserWorld, user_add, user_del, user_change_password}
use tmail.Accounts.Aliases.{alias_add, alias_del}
use tmail.Accounts.Hosts.{rcpthost_add, rcpthost_del, relay_ip_add, relay_ip_del}

-- The arguments come in the order of the source.
pub data Call : Type 0 where
  adds_user : (login passwd quota : Bytes) → (have_mailbox auth_relay is_catchall : Bool) → Call
  deletes_user : (login : Bytes) → Call
  changes_password : (login passwd : Bytes) → Call
  adds_alias : (alias deliver_to pipe : Bytes) → (is_mini_list : Bool) → Call
  deletes_alias : (alias : Bytes) → Call
  adds_relay_ip : (ip : Bytes) → Call
  deletes_relay_ip : (ip : Bytes) → Call
  adds_host : (host : Bytes) → (is_local is_alias : Bool) → Call
  deletes_host : (host : Bytes) → Call

-- The libraries that a call needs: what users need, `exec.LookPath` and `net.ParseIP`.
pub record CallWorld : Type 0 where
  pub user_world : UserWorld
  pub look_path : Bytes → Bool
  pub parse_ip : Bytes → Bool

unfoldable pub run_call : CallWorld → Call → Action Done
run_call w (adds_user login passwd quota have_mailbox auth_relay is_catchall) =
    user_add w.user_world login passwd quota have_mailbox auth_relay is_catchall
run_call w (deletes_user login) = user_del login
run_call w (changes_password login passwd) = user_change_password w.user_world login passwd
run_call w (adds_alias alias deliver_to pipe is_mini_list) =
    alias_add w.look_path alias deliver_to pipe is_mini_list
run_call w (deletes_alias alias) = alias_del alias
run_call w (adds_relay_ip ip) = relay_ip_add w.parse_ip ip
run_call w (deletes_relay_ip ip) = relay_ip_del w.parse_ip ip
run_call w (adds_host host is_local is_alias) = rcpthost_add host is_local is_alias
run_call w (deletes_host host) = rcpthost_del host

-- Calls one after the other, whatever they answer.
unfoldable pub run_calls : CallWorld → List Call → Db → Db
unfolding run_call
run_calls w [] db = db
run_calls w (c ∷ cs) db = run_calls w cs ((run_call w c db).1)

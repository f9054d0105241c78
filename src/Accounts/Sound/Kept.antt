-- ===== src/Accounts/Sound/Kept.antt =====
-- The calls of api/api.go on accounts, one after the other.
use tmail.Prelude.{◌∷◌, [], List}
use tmail.Accounts.{Tables, Db, Done, Returned, value, error}
use tmail.Accounts.Calls.{Call, CallWorld, run_call, run_calls}
use tmail.Accounts.Calls
use tmail.Accounts.Triple.{Triple, Any, Ended}
use tmail.Accounts.Sound.{IsSound}
use tmail.Accounts.Sound.Hosts.{
  rcpthost_add-Triple, rcpthost_del-Triple, relay_ip_add-Triple, relay_ip_del-Triple,
}
use tmail.Accounts.Sound.Users.{user_add-Triple, user_del-Triple}
use tmail.Accounts.Sound.Users.Password.{user_change_password-Triple}
use tmail.Accounts.Sound.Aliases.{alias_add-Triple, alias_del-Triple}

abbrev Always : Tables → Type 0
Always t = Unit

run_call-Triple : (w : CallWorld) (c : Call) → Triple IsSound Always (run_call w c) (Any IsSound)
unfolding run_call
run_call-Triple w (Calls.adds_user login passwd quota have_mailbox auth_relay is_catchall) =
    user_add-Triple w.user_world login passwd quota have_mailbox auth_relay is_catchall
run_call-Triple w (Calls.deletes_user login) = user_del-Triple login
run_call-Triple w (Calls.changes_password login passwd) =
    user_change_password-Triple w.user_world login passwd
run_call-Triple w (Calls.adds_alias alias deliver_to pipe is_mini_list) =
    alias_add-Triple w.look_path alias deliver_to pipe is_mini_list
run_call-Triple w (Calls.deletes_alias alias) = alias_del-Triple alias
run_call-Triple w (Calls.adds_relay_ip ip) = relay_ip_add-Triple w.parse_ip ip
run_call-Triple w (Calls.deletes_relay_ip ip) = relay_ip_del-Triple w.parse_ip ip
run_call-Triple w (Calls.adds_host host is_local is_alias) =
    rcpthost_add-Triple host is_local is_alias
run_call-Triple w (Calls.deletes_host host) = rcpthost_del-Triple host

Ended-IsSound :
    (x : Returned Done × Db) → Ended IsSound {A = Done} (Any IsSound) x → IsSound x.1.tables
Ended-IsSound (value a, db) i = i.0
Ended-IsSound (error e, db) i = i

-- If the tables are sound, they are sound after any calls one after the other, whichever calls of
-- the database fail: logins, hosts and aliases are in lower case and unique, a login has 4 to 256
-- bytes, a catchall has a mailbox, no domain has two catchalls, and a list is no domain.
pub run_calls-IsSound :
    (w : CallWorld) (cs : List Call) (db : Db)
    → IsSound db.tables
    → IsSound (run_calls w cs db).tables
unfolding run_calls
run_calls-IsSound w [] db s = s
run_calls-IsSound w (c ∷ cs) db s =
    run_calls-IsSound w cs ((run_call w c db).1)
      (Ended-IsSound (run_call w c db) ((run_call-Triple w c).holds db s tt))

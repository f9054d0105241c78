-- ===== src/Examples/Served.antt =====
-- A session that asks the tables, and the theorem of such sessions at it.
use tmail.Prelude.{◌∷◌, ◌≢◌, [], true, some, codes, refl, List, Bytes, eq_bytes, false}
use tmail.Text.{
  has_prefix, take, split, join, part, drop, last_part, to_lower, lower_byte, split_at_byte,
  trim_space,
}
use tmail.Text.Utils.{remove_brackets, is_string_in_slice}
use tmail.Smtpd.Session.{Env, Session, answer, out, exec_smtpd_plugins, set_mail_from, new_session}
use tmail.Smtpd.Rcpt.{smtp_rcpt_to, user_relay}
use tmail.Smtpd.View.{LeaveView}
use tmail.Accounts.Hosts.{rcpthost_get, ip_can_relay, before_colon}
use tmail.Accounts.{first_with, find_user, find_alias, find_host, exists_row, optional, query}
use tmail.Accounts.Users.{user_get_by_login}
use tmail.Accounts.Aliases.{alias_get, alias_exists}
use tmail.Accounts.LocalRcpt.{is_valid_local_rcpt, has_box}
use tmail.Accounts.Served.{Served, directory_on, rcpt_added-Served}
use tmail.Examples.Accounts.{hosted, user_libraries}
use tmail.Examples.World.{env, empty_queue}

abbrev asking : Env
asking = record env { directory = directory_on user_libraries 1 hosted }

abbrev in_mail : Session
in_mail =
    set_mail_from (codes "al@c.org")
      (record (new_session (codes "s1") (codes "192.0.2.9") (codes "192.0.2.1") [] false
        empty_queue) { seen_mail = true })

abbrev to_bob : List Bytes
to_bob = codes "RCPT" ∷ codes "TO:<bob@a.org>" ∷ []

asking_leaves : LeaveView asking
unfolding exec_smtpd_plugins
asking_leaves = record { leaves = λ _ _. refl }

adds_bob : (smtp_rcpt_to asking to_bob in_mail).envelope.rcpt_to ≢ in_mail.envelope.rcpt_to
unfolding smtp_rcpt_to join split trim_space to_lower part drop remove_brackets answer out last_part
    is_string_in_slice eq_bytes exec_smtpd_plugins split_at_byte has_prefix take new_session
    is_valid_local_rcpt rcpthost_get optional exists_row alias_exists alias_get query find_host
    user_get_by_login find_alias find_user first_with has_box lower_byte
adds_bob h = cc

no_relay : asking.directory.ip_can_relay in_mail.remote_addr ≢ some true
unfolding ip_can_relay before_colon query is_string_in_slice new_session
no_relay h = cc

rcpt_added-Served_example : Served asking hosted to_bob in_mail
unfolding new_session user_relay
rcpt_added-Served_example =
    rcpt_added-Served asking asking_leaves user_libraries 1 hosted to_bob in_mail refl refl refl
      no_relay adds_bob

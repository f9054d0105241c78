-- ===== src/Examples/Session.antt =====
-- A session.
use tmail.Smtpd.Relay
use tmail.Smtpd.Accept.{NoPlugins, IsDelivered, data_250-IsDelivered}
use tmail.Smtpd.View.{LeaveView, view}
use tmail.Smtpd.Invariant.{Reach-IsSafe}
use tmail.Smtpd.Invariant.Recipients.{IsSafe}
use tmail.Smtpd.Greeting.{smtp_greeting}
use tmail.Text.{take}
use tmail.Smtpd.Handle.{step, greeted, receive, handle_byte}
use tmail.Queue.{add_message, store_put}
use tmail.Message.Fold.{fold_header}
use tmail.Message.{raw_get_message_id, get_host_from_address}
use tmail.Smtpd.Reader.{read_data}
use tmail.Smtpd.Data.{smtp_data, user_login, no_rcpt}
use tmail.Smtpd.Rcpt.{smtp_rcpt_to}
use tmail.Text.Utils.{remove_brackets, is_fqn, is_string_in_slice}
use tmail.Smtpd.Mail.{smtp_mail_from}
use tmail.Smtpd.Greeting.{smtp_ehlo}
use tmail.Text.{split, trim_space, to_lower, part, drop, join, last_part, split_at_byte, has_prefix}
use tmail.Prelude.{◌∷◌, [], ℕ, false, List, codes, Bytes, ◌≡◌, refl, eq_bytes, true, ◌≢◌, arith}
use tmail.Examples.World.{env, empty_queue}
use tmail.Smtpd.Handle.{serve}
use tmail.Smtpd.Session.{
  Session, Reply, set_mail_from, new_session, exec_smtpd_plugins, out, reset, answer, exit_asap,
}

abbrev started : Bytes → Session
started input =
    new_session (codes "s1") (codes "1.2.3.4:99") (codes "9.9.9.9:25") input false empty_queue

abbrev dialogue : Bytes
dialogue = codes "EHLO c.org\r\nMAIL FROM:<al@c.org>\r\nRCPT TO:<bob@a.org>\r\nDATA\r\nhi\r\n.\r\n"

abbrev code_list : List Reply → List ℕ
code_list [] = []
code_list (r ∷ rs) = r.code ∷ code_list rs

served :
    code_list (serve 100 env (started dialogue)).sent
    ≡ 250 ∷ 250 ∷ 250 ∷ 250 ∷ 250 ∷ 250 ∷ 250 ∷ 354 ∷ 250 ∷ []
unfolding serve new_session split trim_space eq_bytes to_lower smtp_ehlo exec_smtpd_plugins out
    smtp_mail_from reset part drop remove_brackets is_fqn answer smtp_rcpt_to join last_part
    is_string_in_slice smtp_data read_data raw_get_message_id fold_header add_message store_put
    user_login exit_asap get_host_from_address split_at_byte has_prefix take
served = refl

no_plugins : NoPlugins env
no_plugins = record { empty = λ _. refl }

plugins_leave : LeaveView env
unfolding exec_smtpd_plugins
plugins_leave = record { leaves = λ _ _. refl }

-- A session that has had MAIL.
abbrev in_mail : Session
in_mail = set_mail_from (codes "al@c.org") (record (started []) { seen_mail = true })

abbrev rcpt_words : List Bytes
rcpt_words = codes "RCPT" ∷ codes "TO:<bob@a.org>" ∷ []

adds_bob : (smtp_rcpt_to env rcpt_words in_mail).envelope.rcpt_to ≢ in_mail.envelope.rcpt_to
unfolding smtp_rcpt_to join split trim_space to_lower part drop remove_brackets is_fqn answer out
    last_part is_string_in_slice eq_bytes exec_smtpd_plugins split_at_byte has_prefix take
    new_session
adds_bob h = cc

rcpt_added-IsAccepted_example : Relay.IsAccepted env rcpt_words in_mail
rcpt_added-IsAccepted_example =
    Relay.rcpt_added-IsAccepted env plugins_leave refl rcpt_words in_mail adds_bob

-- A session that has had RCPT too, and whose client sends a message.
abbrev in_data : Session
in_data = record in_mail {
  envelope = record { mail_from = codes "al@c.org"; rcpt_to = codes "bob@a.org" ∷ [] };
  rcpt_count = 1;
  inbox = codes "hi\r\n.\r\nQUIT\r\n";
}

replies_250 : (smtp_data env (codes "DATA" ∷ []) in_data).smtp_response_code ≡ 250
unfolding smtp_data read_data raw_get_message_id fold_header add_message store_put user_login
    exit_asap get_host_from_address split_at_byte has_prefix take split trim_space eq_bytes to_lower
    exec_smtpd_plugins out reset part drop answer join new_session
replies_250 = refl

data_250-IsDelivered_example :
    IsDelivered env no_plugins in_data (smtp_data env (codes "DATA" ∷ []) in_data)
data_250-IsDelivered_example =
    data_250-IsDelivered env no_plugins (codes "DATA" ∷ []) in_data replies_250

-- A session that has had MAIL, and whose client ends an RCPT command.
abbrev at_rcpt : Session
at_rcpt = record in_mail { last_client_cmd = codes "RCPT TO:<bob@a.org>\r"; inbox = 10 ∷ [] }

abbrev at_rcpt_greeted : Session
at_rcpt_greeted = smtp_greeting env at_rcpt

at_rcpt-IsSafe : IsSafe env.cfg (view at_rcpt)
unfolding new_session no_rcpt
at_rcpt-IsSafe = record {
  started = λ _. refl;
  distinct = tt;
  counted = omega arith;
  capped = λ _. omega arith;
}

receives_lf : at_rcpt_greeted.inbox ≡ 10 ∷ []
unfolding smtp_greeting exec_smtpd_plugins out
receives_lf = refl

still_open : at_rcpt_greeted.closed ≡ false
unfolding smtp_greeting exec_smtpd_plugins new_session out
still_open = refl

Reach-IsSafe_example :
    IsSafe env.cfg (view (handle_byte env 10 (record at_rcpt_greeted { inbox = [] })))
Reach-IsSafe_example =
    Reach-IsSafe env plugins_leave at_rcpt-IsSafe
      (step greeted (receive 10 [] receives_lf still_open))

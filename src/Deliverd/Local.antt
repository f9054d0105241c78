-- ===== src/Deliverd/Local.antt =====
-- core/deliverd_local.go: delivery to a local mailbox, by way of the aliases of the recipient.
-- Messages of errors are given without the ids that the source puts in front of them.
use tmail.Prelude.{
  ◌&&◌, ◌∷◌, ◌++◌, ◌==◌, if◌then◌else◌, [], ℕ, none, some, Option, List, not, codes, Bytes, length,
}
use tmail.Deliverd.{Delivery, World, die_ok, die_perm, die_temp}
use tmail.Directory.{User, Alias, Query, row, record_not_found, query_error}
use tmail.Message.{Envelope}
use tmail.Queue
use tmail.Queue.{Queue, Result, ok, err, panic}
use tmail.Text.{crlf, split, part}

-- How a command that is given the message on its standard input ends: before it could run, or with
-- an exit status (0 for success), or in another error of `Wait`.
pub data Run : Type 0 where
  not_piped not_started not_copied : Run
  exited : ℕ → Run
  wait_error : Run

-- What dovecot-lda reports: its error text has three words, the last a number, or it has not.
pub data Lda : Type 0 where
  lda_not_piped lda_not_started lda_not_copied lda_ok lda_unexpected lda_unparsed : Lda
  lda_code : ℕ → Lda

pub record LocalWorld : Type 0 where
  pub user_get_by_login : Bytes → Query User
  pub alias_get : Bytes → Query Alias
  pub catchall_for_domain : Bytes → Query User
  pub run_pipe : Bytes → Bytes → Run
  pub run_lda : Bytes → Bytes → Lda

-- the switch on the exit status of dovecot-lda
unfoldable pub end_lda : World → Lda → Delivery → Delivery
end_lda w lda_ok d = die_ok w d
end_lda w (lda_code n) d =
    if n == 67
    then die_perm w (codes "the destination user was not found") d
    else if n == 77
    then die_perm w (codes "the destination user is over quota") d
    else die_temp w (codes "dovecot-lda failed") d
end_lda w _ d = die_temp w (codes "dovecot-lda could not be run") d

-- the three headers in front of the message
unfoldable pub with_trace : World → Bytes → Delivery → Bytes → Bytes
with_trace w deliver_to d raw =
    codes "Return-Path: "
    ++ (d.qmsg.mail_from
        ++ (crlf
            ++ (codes "Delivered-To: "
                ++ (deliver_to
                    ++ (crlf
                        ++ (codes "Received: tmail deliverd local "
                            ++ (d.id ++ (codes "; " ++ (w.now_822 ++ (crlf ++ raw))))))))))

unfoldable pub raw_of : Option Bytes → Bytes
raw_of none = []
raw_of (some raw) = raw

unfoldable pub to_mailbox : World → LocalWorld → Bytes → Delivery → Delivery
unfolding end_lda with_trace raw_of
to_mailbox w l deliver_to d =
    let raw = with_trace w deliver_to d (raw_of d.raw_data) in
    end_lda w (l.run_lda deliver_to raw) (record d { raw_data = some raw })

-- the recipients of an alias, and the sender of its mails
unfoldable pub alias_rcpts : Alias → Bytes → List Bytes
alias_rcpts a local_part =
    let targets = split a.deliver_to (59 ∷ []) in
    if a.is_dom_alias then (local_part ++ (64 ∷ part 0 targets)) ∷ [] else targets

unfoldable pub alias_sender : Alias → Bytes → Bytes
alias_sender a mail_from =
    if not (length mail_from == 0) && (a.is_mini_list && not a.is_dom_alias)
    then a.alias
    else mail_from

unfoldable pub end_forward : World → Queue × Result Bytes → Delivery → Delivery
end_forward w (queue, ok id) d = die_ok w (record d { queue = queue })
end_forward w (queue, err) d =
    die_temp w (codes "unable to requeue aliased msg") (record d { queue = queue })
end_forward w (queue, panic) d = record d { queue = queue }

unfoldable pub forward : World → Alias → Delivery → Delivery
unfolding alias_rcpts alias_sender end_forward raw_of
forward w a d =
    let local_part = part 0 (split d.qmsg.rcpt_to (64 ∷ [])) in
    let env : Envelope = record {
      mail_from = alias_sender a d.qmsg.mail_from;
      rcpt_to = alias_rcpts a local_part;
    } in
    if length a.deliver_to == 0
    then die_ok w d
    else end_forward w (Queue.add_message w.backend (raw_of d.raw_data) env [] d.queue) d

unfoldable pub end_pipe : World → Alias → Run → Delivery → Delivery
unfolding forward
end_pipe w a (exited n) d =
    if n == 0
    then forward w a d
    else if n == 4
    then die_temp w (codes "cmd failed with exit code 4 (temp failure)") d
    else die_perm w (codes "cmd failed") d
end_pipe w a wait_error d = die_perm w (codes "cmd oops something went wrong") d
end_pipe w a _ d = die_temp w (codes "unable to exec pipe") d

unfoldable pub to_alias : World → LocalWorld → Alias → Delivery → Delivery
unfolding end_pipe forward
to_alias w l a d =
    if length a.pipe == 0
    then forward w a d
    else end_pipe w a (l.run_pipe a.pipe (raw_of d.raw_data)) d

-- `err` of the query for a catchall is an error also where there is none.
unfoldable pub to_catchall : World → LocalWorld → Query User → Delivery → Delivery
unfolding to_mailbox
to_catchall w l (row u) d = to_mailbox w l u.login d
to_catchall w l _ d = die_temp w (codes "unable to search a catchall") d

unfoldable pub domain_alias : World → LocalWorld → Bytes → Query Alias → Delivery → Delivery
unfolding to_alias to_catchall
domain_alias w l domain query_error d = die_temp w (codes "unable to check alias") d
domain_alias w l domain record_not_found d = to_catchall w l (l.catchall_for_domain domain) d
domain_alias w l domain (row a) d = to_alias w l a d

-- with the parts of the recipient; `deliverLocal` is called only where there are two
unfoldable pub email_alias : World → LocalWorld → Query Alias → Delivery → Delivery
unfolding domain_alias to_alias
email_alias w l query_error d = die_temp w (codes "unable to check alias") d
email_alias w l record_not_found d =
    let domain = part 1 (split d.qmsg.rcpt_to (64 ∷ [])) in
    domain_alias w l domain (l.alias_get domain) d
email_alias w l (row a) d = to_alias w l a d

unfoldable pub to_user : World → LocalWorld → Query User → Delivery → Delivery
unfolding email_alias to_mailbox
to_user w l query_error d = die_temp w (codes "unable to check if it is a real user") d
to_user w l record_not_found d = email_alias w l (l.alias_get d.qmsg.rcpt_to) d
to_user w l (row u) d =
    if u.have_mailbox
    then to_mailbox w l d.qmsg.rcpt_to d
    else email_alias w l (l.alias_get d.qmsg.rcpt_to) d

-- `deliverLocal`
unfoldable pub deliver_local : World → LocalWorld → Delivery → Delivery
unfolding to_user
deliver_local w l d = to_user w l (l.user_get_by_login d.qmsg.rcpt_to) d

-- ===== src/Accounts/Places.antt =====
-- A recipient that `IsValidLocalRcpt` accepts, and `deliverLocal` on the same tables.
use tmail.Prelude.{Bytes, ◌≡◌, ◌∷◌, [], true, none, some, Option, ◌⊎◌, false}
use tmail.Text.{to_lower, split, part}
use tmail.Directory.{User, Alias, Query, row, record_not_found}
use tmail.Accounts.{Tables, find_user, find_alias, find_catchall, is_some}
use tmail.Accounts.LocalRcpt.{has_box}
use tmail.Deliverd.{Delivery, World}
use tmail.Deliverd.Local.{LocalWorld, Run, Lda, to_mailbox, to_alias}

abbrev pub as_query : {A : Type 0} → Option A → Query A
as_query none = record_not_found
as_query (some a) = row a

-- `UserGetByLogin`, `AliasGet` and `UserGetCatchallForDomain` on tables of which no call fails
abbrev pub on_tables : Tables → (Bytes → Bytes → Run) → (Bytes → Bytes → Lda) → LocalWorld
on_tables t pipe lda = record {
  user_get_by_login = λ login. as_query (find_user (to_lower login) t.users);
  alias_get = λ name. as_query (find_alias name t.aliases);
  catchall_for_domain = λ d. as_query (find_catchall (b'%' ∷ to_lower d) t.users);
  run_pipe = pipe;
  run_lda = lda;
}

abbrev rcpt_domain : Delivery → Bytes
rcpt_domain d = part 1 (split d.qmsg.rcpt_to (64 ∷ []))

module _ (t : Tables) (w : World) (pipe : Bytes → Bytes → Run) (lda : Bytes → Bytes → Lda) where
  -- The message goes to the mailbox of the recipient; where the recipient has none, through the
  -- alias of the recipient; where there is none, through the alias of its domain; and where there is
  -- none, to the mailbox of a catchall of its domain.
  pub data Goes (d : Delivery) (end : Delivery) : Type 0 where
    home :
        (u : User)
        → find_user (to_lower d.qmsg.rcpt_to) t.users ≡ some u
        → u.have_mailbox ≡ true
        → end ≡ to_mailbox w (on_tables t pipe lda) d.qmsg.rcpt_to d
        → Goes d end
    through :
        (a : Alias)
        → has_box (find_user (to_lower d.qmsg.rcpt_to) t.users) ≡ false
        → find_alias d.qmsg.rcpt_to t.aliases ≡ some a
        → end ≡ to_alias w (on_tables t pipe lda) a d
        → Goes d end
    through_domain :
        (a : Alias)
        → has_box (find_user (to_lower d.qmsg.rcpt_to) t.users) ≡ false
        → find_alias d.qmsg.rcpt_to t.aliases ≡ none
        → find_alias (rcpt_domain d) t.aliases ≡ some a
        → end ≡ to_alias w (on_tables t pipe lda) a d
        → Goes d end
    caught :
        (u : User)
        → has_box (find_user (to_lower d.qmsg.rcpt_to) t.users) ≡ false
        → find_alias d.qmsg.rcpt_to t.aliases ≡ none
        → find_alias (rcpt_domain d) t.aliases ≡ none
        → find_catchall (b'%' ∷ to_lower (rcpt_domain d)) t.users ≡ some u
        → end ≡ to_mailbox w (on_tables t pipe lda) u.login d
        → Goes d end

  module _ (d : Delivery) where
    abbrev box : Option User
    box = find_user (to_lower d.qmsg.rcpt_to) t.users

    abbrev own : Option Alias
    own = find_alias d.qmsg.rcpt_to t.aliases

    abbrev of_domain : Option Alias
    of_domain = find_alias (rcpt_domain d) t.aliases

    abbrev net : Option User
    net = find_catchall (b'%' ∷ to_lower (rcpt_domain d)) t.users

    -- One of the places that `deliverLocal` looks at holds something.
    abbrev Some : Type 0
    Some = (is_some own ≡ true) ⊎ ((is_some of_domain ≡ true) ⊎ (is_some net ≡ true))

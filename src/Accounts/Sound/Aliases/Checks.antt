-- ===== src/Accounts/Sound/Aliases/Checks.antt =====
-- The checks of `AliasAdd`, and the errors that core/alias.go replaces.
use tmail.Prelude.{
  Bytes, ◌∷◌, ◌||◌, ◌==◌, ◌+◌, [], ℕ, true, false, Bool, none, some, Option, length, List,
  if◌then◌else◌,
}
use tmail.Text.{split, trim_space}
use tmail.Directory.{RcptHost}
use tmail.Accounts.{
  Tables, Db, Returned, value, error, not_found, failed, panicked, still_running, refused, Action,
  Done, guard, ◌>>=◌, pure, String, raise,
}
use tmail.Accounts.Hosts.{rcpthost_get, rcpthost_add}
use tmail.Accounts.Users.{user_get_by_login}
use tmail.Accounts.Aliases.{
  or_refuse, check_address, add_domain, check_domain, check_pipe, check_mailbox, check_target,
  check_rcpt, checked_rcpt, check_rcpts, check_deliver_to, check_alias, alias_failure, joined_rcpts,
}
use tmail.Accounts.Triple.{
  Triple, Any, Ended, >>=-Triple, guard-then, guard-Triple, query-Triple, optional-Triple,
  pure-Triple, raise-Triple,
}
use tmail.Accounts.Sound.{IsSound}
use tmail.Accounts.Sound.Hosts.{rcpthost_add-Triple}
use tmail.Accounts.Sound.Users.{user_exists-Triple}

or_refuse-Triple :
    {K : Tables → Type 0} {A : Type 0} {Q : A → Tables → Type 0} {m : Action A} (text : String)
    → Triple IsSound K m Q
    → Triple IsSound K (or_refuse text m) Q
unfolding or_refuse
or_refuse-Triple {K = K} {A = A} {Q = Q} {m = m} text h = record {
  holds = λ db i k. go (m db) (h.holds db i k);
}
  where
    go :
        (x : Returned A × Db)
        → Ended IsSound Q x
        → Ended IsSound Q (elim x.0 [
          | value a ↦ (value a, x.1)
          | error not_found ↦ (error (refused text), x.1)
          | error e ↦ (error e, x.1)
        ])
    go (value a, db) i = i
    go (error not_found, db) i = i
    go (error failed, db) i = i
    go (error panicked, db) i = i
    go (error still_running, db) i = i
    go (error (refused t), db) i = i

pub alias_failure-Triple :
    {K : Tables → Type 0} {A : Type 0} {Q : A → Tables → Type 0} {m : Action A}
    → Triple IsSound K m Q
    → Triple IsSound K (alias_failure m) Q
unfolding alias_failure
alias_failure-Triple {K = K} {A = A} {Q = Q} {m = m} h = record {
  holds = λ db i k. go (m db) (h.holds db i k);
}
  where
    go :
        (x : Returned A × Db)
        → Ended IsSound Q x
        → Ended IsSound Q (elim x.0 [
          | value a ↦ (value a, x.1)
          | error not_found ↦ (error (refused "Alias doesn't exists"), x.1)
          | error e ↦ (error (refused "unable to get alias"), x.1)
        ])
    go (value a, db) i = i
    go (error not_found, db) i = i
    go (error failed, db) i = i
    go (error panicked, db) i = i
    go (error still_running, db) i = i
    go (error (refused t), db) i = i

add_domain-Triple :
    {K : Tables → Type 0} (alias : Bytes) → Triple IsSound K (add_domain alias) (Any IsSound)
unfolding add_domain
add_domain-Triple {K = K} alias = record {
  holds = λ db i k.
      go (rcpthost_add alias true true db)
        ((rcpthost_add-Triple {K = K} alias true true).holds db i k);
}
  where
    go :
        (x : Returned Done × Db)
        → Ended IsSound {A = Done} (Any IsSound) x
        → Ended IsSound {A = Done} (Any IsSound) (elim x.0 [
          | value _ ↦ (value tt, x.1)
          | error _ ↦ (error (refused "unable to add alias as rcpthost"), x.1)
        ])
    go (value a, db) i = i
    go (error e, db) i = i

module _ {K : Tables → Type 0} where
  check_address-Triple :
      (alias domain : Bytes) → Triple IsSound K (check_address alias domain) (Any IsSound)
  unfolding check_address rcpthost_get
  check_address-Triple alias domain = >>=-Triple IsSound (user_exists-Triple alias) λ known.
      guard-then IsSound _ _ λ _.
        >>=-Triple IsSound (or_refuse-Triple _ (query-Triple IsSound _))
          λ host. guard-Triple IsSound _ _ (λ t b k. tt)

  check_domain-Triple : (alias : Bytes) → Triple IsSound K (check_domain alias) (Any IsSound)
  unfolding check_domain rcpthost_get
  check_domain-Triple alias = >>=-Triple IsSound (optional-Triple IsSound _) λ host. go host
    where
      go :
          {L : Tables → Type 0} (host : Option RcptHost)
          → Triple IsSound L
              (elim host [
                | none ↦ add_domain alias
                | some h ↦ guard h.is_alias "domain is and existing domain (and not an alias)"
              ])
              (Any IsSound)
      go none = add_domain-Triple alias
      go (some h) = guard-Triple IsSound _ _ (λ t b k. tt)

  pub check_alias-Triple :
      (alias : Bytes) (domain : Option Bytes)
      → Triple IsSound K (check_alias alias domain) (Any IsSound)
  unfolding check_alias
  check_alias-Triple alias none = check_domain-Triple alias
  check_alias-Triple alias (some domain) = check_address-Triple alias domain

  check_rcpt-Triple :
      (domain : Option Bytes) (i : ℕ) (rcpt : Bytes)
      → Triple IsSound K (check_rcpt domain i rcpt) (Any IsSound)
  unfolding check_rcpt check_mailbox check_target rcpthost_get user_get_by_login
  check_rcpt-Triple (some domain) i rcpt = guard-then IsSound _ _ λ _. guard-then IsSound _ _ λ _.
      >>=-Triple IsSound (or_refuse-Triple _ (query-Triple IsSound _))
        λ u. guard-Triple IsSound _ _ (λ t b k. tt)
  check_rcpt-Triple none i rcpt = guard-then IsSound _ _ λ _. guard-then IsSound _ _ λ _.
      >>=-Triple IsSound (or_refuse-Triple _ (query-Triple IsSound _))
        λ host. guard-Triple IsSound _ _ (λ t b k. tt)

  pub check_pipe-Triple :
      (look_path : Bytes → Bool) (pipe : Bytes)
      → Triple IsSound K (check_pipe look_path pipe) (Any IsSound)
  unfolding check_pipe
  check_pipe-Triple look_path pipe = go (length pipe == 0 || look_path (trim_space pipe))
    where
      go : (b : Bool) → Triple IsSound K (if b then pure tt else raise failed) (Any IsSound)
      go true = pure-Triple IsSound (λ t k. tt)
      go false = raise-Triple IsSound

check_rcpts-Triple :
    {K : Tables → Type 0} (domain : Option Bytes) (alias : Bytes) (i : ℕ) (ds : List Bytes)
    → Triple IsSound K (check_rcpts domain alias i ds) (Any IsSound)
unfolding check_rcpts checked_rcpt
check_rcpts-Triple domain alias i [] = pure-Triple IsSound (λ t k. tt)
check_rcpts-Triple {K = K} domain alias i (d ∷ ds) =
    go (length (trim_space d) == 0) λ L. check_rcpts-Triple {K = L} domain alias (i + 1) ds
  where
    go :
        (b : Bool)
        → ((L : Tables → Type 0)
            → Triple IsSound L (check_rcpts domain alias (i + 1) ds) (Any IsSound))
        → Triple IsSound K
            (if b
              then check_rcpts domain alias (i + 1) ds
              else checked_rcpt domain alias i (trim_space d) (check_rcpts domain alias (i + 1) ds))
            (Any IsSound)
    go true rest = rest K
    go false rest = guard-then IsSound _ _ λ _.
        >>=-Triple IsSound (check_rcpt-Triple domain i _)
          λ _. >>=-Triple IsSound (rest _) λ more. pure-Triple IsSound (λ t k. tt)

pub check_deliver_to-Triple :
    {K : Tables → Type 0} (domain : Option Bytes) (alias deliver_to : Bytes)
    → Triple IsSound K (check_deliver_to domain alias deliver_to) (Any IsSound)
unfolding check_deliver_to
check_deliver_to-Triple {K = K} domain alias deliver_to = go (length deliver_to == 0)
  where
    go :
        (b : Bool)
        → Triple IsSound K
            (if b
              then pure []
              else (check_rcpts domain alias 0 (split (trim_space deliver_to) (32 ∷ []))
                  >>= λ rcpts. pure (joined_rcpts deliver_to rcpts)))
            (Any IsSound)
    go true = pure-Triple IsSound (λ t k. tt)
    go false =
        >>=-Triple IsSound (check_rcpts-Triple domain alias 0 _)
          λ rcpts. pure-Triple IsSound (λ t k. tt)

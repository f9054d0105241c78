-- ===== src/Accounts/Aliases.antt =====
-- core/alias.go.
use tmail.Prelude.{
  Bytes, ◌+◌, ◌&&◌, ◌||◌, ◌∷◌, ◌++◌, ◌==◌, if◌then◌else◌, [], ℕ, true, Bool, none, some, Option,
  List, not, length, eq_bytes,
}
use tmail.Text.{has_byte, to_lower, split, part, join, trim_space, split_at_byte}
use tmail.Directory.{Alias}
use tmail.Accounts.{
  Action, Done, pure, raise, guard, query, exec, insert, optional, exists_row, find_alias, is_some,
  String, value, failed, ◌>>=◌, transaction, error, refused, not_found, without_key, ◌>>◌,
}
use tmail.Accounts.Hosts.{rcpthost_get, rcpthost_add, remove_host}
use tmail.Accounts.Users.{user_get_by_login, user_exists}

-- `AliasGet`
unfoldable pub alias_get : Bytes → Action Alias
alias_get name = query (λ t. find_alias name t.aliases)

-- `AliasExists`
unfoldable pub alias_exists : Bytes → Action Bool
alias_exists name = exists_row (alias_get (to_lower name))

-- "record not found" gets a text of its own
unfoldable pub or_refuse : {A : Type 0} → String → Action A → Action A
or_refuse text m db =
    let (r, db') = m db in
    elim r [
      | value a ↦ (value a, db')
      | error not_found ↦ (error (refused text), db')
      | error e ↦ (error e, db')
    ]

-- the checks of an alias that is an address
unfoldable pub check_address : Bytes → Bytes → Action Done
check_address alias domain = do
  known ← user_exists alias
  guard (not known) "alias is an existing user"
  host ← or_refuse "domain is not handled by tmail" (rcpthost_get domain)
  guard host.is_local "domain part of alias must be a local domain"

-- any error of `RcpthostAdd` gets another text
unfoldable pub add_domain : Bytes → Action Done
add_domain alias db =
    let (r, db') = rcpthost_add alias true true db in
    elim r [
      | value _ ↦ (value tt, db')
      | error _ ↦ (error (refused "unable to add alias as rcpthost"), db')
    ]

-- the checks of an alias that is a domain
unfoldable pub check_domain : Bytes → Action Done
check_domain alias = do
  host ← optional (rcpthost_get alias)
  elim host [
    | none ↦ add_domain alias
    | some h ↦ guard h.is_alias "domain is and existing domain (and not an alias)"
  ]

-- `strings.SplitN(pipe, " ", 1)` has one part, so that the whole command is looked up.
unfoldable pub check_pipe : (Bytes → Bool) → Bytes → Action Done
check_pipe look_path pipe =
    if length pipe == 0 || look_path (trim_space pipe) then pure tt else raise failed

-- a recipient of an alias that is an address of `domain`
unfoldable pub check_mailbox : Bytes → Bytes → Action Done
check_mailbox domain rcpt = do
  let parts = split rcpt (64 ∷ [])
  guard (length parts == 2) "deliverTo addresses should be valid email addresses"
  guard (eq_bytes domain (part 1 parts)) "an email alias must have the same domain part"
  u ← or_refuse "user doesn't exists" (user_get_by_login rcpt)
  guard u.have_mailbox "user doesn't have mailbox account"

-- the recipient at index `i` of an alias that is a domain
unfoldable pub check_target : ℕ → Bytes → Action Done
check_target i rcpt = do
  guard (i == 0) "a domain can be an alias on only one other domain"
  guard (not (has_byte 64 rcpt)) "you must give a domain... for a domain alias"
  host ← or_refuse "domain is not a local domain" (rcpthost_get rcpt)
  guard host.is_local "domain is not a local domain"

-- `some` with the domain part of an alias that is an address, `none` of a domain
unfoldable pub check_rcpt : Option Bytes → ℕ → Bytes → Action Done
check_rcpt (some domain) i rcpt = check_mailbox domain rcpt
check_rcpt none i rcpt = check_target i rcpt

unfoldable pub checked_rcpt :
    Option Bytes → Bytes → ℕ → Bytes → Action (List Bytes) → Action (List Bytes)
checked_rcpt domain alias i rcpt rest = do
  guard (not (eq_bytes rcpt alias)) "are you drunk ?"
  check_rcpt domain i rcpt
  more ← rest
  pure (rcpt ∷ more)

-- the loop over the recipients
unfoldable pub check_rcpts : Option Bytes → Bytes → ℕ → List Bytes → Action (List Bytes)
check_rcpts domain alias i [] = pure []
check_rcpts domain alias i (d ∷ ds) =
    let rcpt = trim_space d in
    let rest = check_rcpts domain alias (i + 1) ds in
    if length rcpt == 0 then rest else checked_rcpt domain alias i rcpt rest

unfoldable pub joined_rcpts : Bytes → List Bytes → Bytes
joined_rcpts given [] = given
joined_rcpts given (r ∷ rs) = join (r ∷ rs) (59 ∷ [])

-- the block under `if deliverTo != ""`
unfoldable pub check_deliver_to : Option Bytes → Bytes → Bytes → Action Bytes
check_deliver_to domain alias deliver_to =
    let targets = split (trim_space deliver_to) (32 ∷ []) in
    if length deliver_to == 0
    then pure []
    else (check_rcpts domain alias 0 targets >>= λ rcpts. pure (joined_rcpts deliver_to rcpts))

unfoldable pub save_alias : Alias → Action Done
save_alias a =
    insert (λ t. is_some (find_alias a.alias t.aliases))
      (λ t. record t { aliases = t.aliases ++ a ∷ [] })

-- the domain part of an alias, if it is an address
unfoldable pub domain_part : List Bytes → Option Bytes
domain_part (l ∷ (d ∷ ps)) = some d
domain_part _ = none

unfoldable pub check_alias : Bytes → Option Bytes → Action Done
check_alias alias (some domain) = check_address alias domain
check_alias alias none = check_domain alias

-- `AliasAdd`
unfoldable pub alias_add : (Bytes → Bool) → Bytes → Bytes → Bytes → Bool → Action Done
alias_add look_path given deliver_to pipe is_mini_list = do
  guard (not (length deliver_to == 0 && length pipe == 0))
      "you must define pipe command OR local mailbox"
  let alias = to_lower (trim_space given)
  let domain = domain_part (split_at_byte 64 alias)
  guard (not (not (is_some domain) && is_mini_list))
      "you can't use --minilist option on dmain alias"
  known ← alias_exists alias
  guard (not known) "alias already exists"
  check_alias alias domain
  check_pipe look_path pipe
  rcpts ← check_deliver_to domain alias deliver_to
  save_alias (record {
    alias = alias;
    deliver_to = rcpts;
    pipe = if length pipe == 0 then [] else trim_space pipe;
    is_dom_alias = not (is_some domain);
    is_mini_list = is_mini_list;
  })

unfoldable pub remove_alias : Bytes → List Alias → List Alias
remove_alias = without_key (λ x. x.alias)

unfoldable pub delete_domain : Alias → Action Done
delete_domain a =
    if a.is_dom_alias then exec (λ t. record t { hosts = remove_host a.alias t.hosts }) else pure tt

unfoldable pub delete_rows : Bytes → Alias → Action Done
delete_rows name a = do
  delete_domain a
  exec (λ t. record t { aliases = remove_alias name t.aliases })

unfoldable pub alias_failure : {A : Type 0} → Action A → Action A
alias_failure m db =
    let (r, db') = m db in
    elim r [
      | value a ↦ (value a, db')
      | error not_found ↦ (error (refused "Alias doesn't exists"), db')
      | error e ↦ (error (refused "unable to get alias"), db')
    ]

-- `AliasDel`
unfoldable pub alias_del : Bytes → Action Done
alias_del name = do a ← alias_failure (alias_get name); transaction (delete_rows name a)

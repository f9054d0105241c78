-- ===== src/Accounts/LocalRcpt.antt =====
-- `IsValidLocalRcpt` of core/local.go.
-- The source calls itself for the target of an alias that is a domain, with no bound. The fuel of
-- the model is the number of calls; without fuel the result is `still_running`.
pub mod Steps
pub mod Ends
pub mod Spec
use tmail.Prelude.{
  Bytes, ◌∷◌, ◌++◌, if◌then◌else◌, [], ℕ, suc, zero, true, false, Bool, none, some, Option, List,
}
use tmail.Text.{split}
use tmail.Directory.{User}
use tmail.Accounts.{Action, pure, raise, optional, is_some, still_running, refused, ◌>>=◌}
use tmail.Accounts.Users.{user_get_by_login, user_get_catchall_for_domain}
use tmail.Accounts.Aliases.{alias_get, alias_exists}

unfoldable pub has_box : Option User → Bool
has_box none = false
has_box (some u) = u.have_mailbox

-- the search for a catchall
unfoldable pub has_catchall : Bytes → Action Bool
unfolding optional user_get_catchall_for_domain
has_catchall domain = do u ← optional (user_get_catchall_for_domain domain); pure (is_some u)

-- with the target of the alias `domain`; `again` is the function itself
unfoldable pub through_alias : (Bytes → Action Bool) → Bytes → Bytes → Action Bool
unfolding alias_get
through_alias again local_part domain = do
  a ← alias_get domain
  again (local_part ++ (64 ∷ a.deliver_to))

-- from the alias that is a domain on
unfoldable pub by_domain : (Bytes → Action Bool) → List Bytes → Action Bool
unfolding alias_exists through_alias has_catchall
by_domain again (l ∷ (d ∷ [])) = do
  known ← alias_exists d
  (if known then through_alias again l d else has_catchall d)
by_domain again _ = raise (refused "bad address format in IsValidLocalRcpt")

-- `IsValidLocalRcpt`
unfoldable pub is_valid_local_rcpt : ℕ → Bytes → Action Bool
unfolding optional user_get_by_login has_box alias_exists by_domain
is_valid_local_rcpt zero rcpt = raise still_running
is_valid_local_rcpt (suc fuel) rcpt = do
  u ← optional (user_get_by_login rcpt)
  known ← (if has_box u then pure true else alias_exists rcpt)
  (if known then pure true else by_domain (is_valid_local_rcpt fuel) (split rcpt (64 ∷ [])))

-- ===== src/Deliverd/Routes.antt =====
-- `getRoutes` of core/deliverd_route.go: the routes to a host, and the order to try them in.
-- The table of routes and the resolver are parameters, and so is the random order of routes that
-- have one priority. Priorities are taken as not negative.
pub mod Choice
pub mod Kept
pub mod Order
pub mod Table
pub mod Usable
use tmail.Prelude.{
  Bytes, ◌∷◌, ◌++◌, ◌==◌, if◌then◌else◌, [], ℕ, suc, zero, Bool, none, some, Option, List, not, ltb,
  codes, length,
}
use tmail.Text.{split_at_byte, to_lower}

pub record Route : Type 0 where
  pub id : ℕ
  pub host : Bytes
  pub local_ip : Option Bytes
  pub remote_host : Bytes
  pub remote_port : Option ℕ
  pub priority : Option ℕ
  pub smtp_auth_login : Option Bytes
  pub smtp_auth_passwd : Option Bytes
  pub mail_from : Option Bytes
  pub user : Option Bytes

-- The conditions of a query: a column has a value, or is null.
pub record Where : Type 0 where
  pub user : Option Bytes
  pub host : Option Bytes
  pub mail_from : Option Bytes

pub record Mx : Type 0 where
  pub host : Bytes
  pub pref : ℕ

-- `perm p n` is what `rand.Perm(n)` gives for the routes of priority `p`.
pub record RouteWorld : Type 0 where
  pub find : Where → Option (List Route)
  pub lookup_mx : Bytes → Option (List Mx)
  pub local_ips : Bytes
  pub perm : ℕ → ℕ → List ℕ

unfoldable pub lower_second : List Bytes → Bytes
lower_second (a ∷ b ∷ rest) = to_lower b
lower_second _ = []

-- the domain behind the first `@`
unfoldable pub host_of : Bytes → Bytes
unfolding lower_second
host_of address = lower_second (split_at_byte 64 address)

abbrev where_user : Bytes → Option Bytes → Option Bytes → Where
where_user user host mail_from = record { user = some user; host = host; mail_from = mail_from }

unfoldable pub only : Bool → Where → List Where
only b q = if b then q ∷ [] else []

-- The queries for the user of the session, in their order.
unfoldable pub user_queries : Bytes → Bytes → Bytes → List Where
unfolding host_of only
user_queries mail_from host auth_user =
    let domain = host_of auth_user in
    let has_domain = not (length domain == 0) in
    where_user auth_user (some host) (some mail_from)
    ∷ (only has_domain (where_user domain (some host) (some mail_from))
        ++ (where_user domain none none
            ∷ (only has_domain (where_user domain (some host) (some (host_of mail_from)))
                ++ (where_user auth_user (some host) none
                    ∷ (only has_domain (where_user domain (some host) none)
                        ++ (where_user auth_user none none
                            ∷ only has_domain (where_user domain none none)))))))

unfoldable pub host_queries : Bytes → List Where
host_queries host =
    record { user = none; host = some host; mail_from = none }
    ∷ record { user = none; host = some (codes "*"); mail_from = none }
    ∷ []

unfoldable pub queries : Bytes → Bytes → Bytes → List Where
unfolding user_queries host_queries
queries mail_from host auth_user =
    (if length auth_user == 0 then [] else user_queries mail_from host auth_user)
    ++ host_queries host

unfoldable pub or_else : Option (List Route) → Option (List Route) → Option (List Route)
or_else none next = none
or_else (some []) next = next
or_else (some (r ∷ rs)) next = some (r ∷ rs)

-- the first answer that is not empty; an error ends the search
unfoldable pub first_found : (Where → Option (List Route)) → List Where → Option (List Route)
unfolding or_else
first_found find [] = some []
first_found find (q ∷ qs) = let rest = first_found find qs in or_else (find q) rest

unfoldable pub mx_routes : List Mx → List Route
mx_routes [] = []
mx_routes (mx ∷ mxs) =
    record {
      id = 0;
      host = [];
      local_ip = none;
      remote_host = mx.host;
      remote_port = some 25;
      priority = some mx.pref;
      smtp_auth_login = none;
      smtp_auth_passwd = none;
      mail_from = none;
      user = none;
    }
    ∷ mx_routes mxs

unfoldable pub of_mx : Option (List Mx) → Option (List Route)
unfolding mx_routes
of_mx none = none
of_mx (some mxs) = some (mx_routes mxs)

unfoldable pub or_local : Bytes → Option Bytes → Option Bytes
or_local ips none = some ips
or_local ips (some []) = some ips
or_local ips (some (b ∷ bs)) = some (b ∷ bs)

unfoldable pub value_or : ℕ → Option ℕ → ℕ
value_or n none = n
value_or n (some m) = m

unfoldable pub with_default : Bytes → Route → Route
unfolding or_local value_or
with_default ips r = record r {
  local_ip = or_local ips r.local_ip;
  remote_port = some (value_or 25 r.remote_port);
  priority = some (value_or 1 r.priority);
}

unfoldable pub with_defaults : Bytes → List Route → List Route
with_defaults ips [] = []
with_defaults ips (r ∷ rs) = with_default ips r ∷ with_defaults ips rs

abbrev pub priority_of : Route → ℕ
priority_of r = value_or 0 r.priority

-- `byPriority[p]`
unfoldable pub with_priority : ℕ → List Route → List Route
with_priority p [] = []
with_priority p (r ∷ rs) =
    let rest = with_priority p rs in if priority_of r == p then r ∷ rest else rest

-- the keys of `byPriority`, sorted
unfoldable pub insert_priority : ℕ → List ℕ → List ℕ
insert_priority p [] = p ∷ []
insert_priority p (q ∷ qs) =
    if p == q then q ∷ qs else if ltb p q then p ∷ q ∷ qs else q ∷ insert_priority p qs

unfoldable pub priorities : List Route → List ℕ
unfolding insert_priority
priorities [] = []
priorities (r ∷ rs) = insert_priority (priority_of r) (priorities rs)

-- `t[n] = r`
unfoldable pub set_at : ℕ → Route → List Route → List Route
set_at n r [] = []
set_at zero r (x ∷ t) = r ∷ t
set_at (suc n) r (x ∷ t) = x ∷ set_at n r t

abbrev pub no_route : Route
no_route = record {
  id = 0;
  host = [];
  local_ip = none;
  remote_host = [];
  remote_port = none;
  priority = none;
  smtp_auth_login = none;
  smtp_auth_passwd = none;
  mail_from = none;
  user = none;
}

-- `make([]Route, n)`
unfoldable pub empty_routes : ℕ → List Route
empty_routes zero = []
empty_routes (suc n) = no_route ∷ empty_routes n

unfoldable pub scatter : List ℕ → List Route → List Route → List Route
unfolding set_at
scatter (o ∷ order) (r ∷ rs) t = scatter order rs (set_at o r t)
scatter _ _ t = t

-- the routes of one priority, in a random order if there are several
unfoldable pub shuffled : (ℕ → List ℕ) → List Route → List Route
unfolding scatter empty_routes
shuffled perm rs = let n = length rs in if ltb 1 n then scatter (perm n) rs (empty_routes n) else rs

unfoldable pub by_priority : (ℕ → ℕ → List ℕ) → List ℕ → List Route → List Route
unfolding shuffled with_priority
by_priority perm [] rs = []
by_priority perm (p ∷ ps) rs = shuffled (perm p) (with_priority p rs) ++ by_priority perm ps rs

unfoldable pub order_routes : (ℕ → ℕ → List ℕ) → List Route → List Route
unfolding by_priority priorities
order_routes perm rs = by_priority perm (priorities rs) rs

unfoldable pub end_routes : RouteWorld → Option (List Route) → Option (List Route)
unfolding order_routes with_defaults
end_routes w none = none
end_routes w (some rs) = some (order_routes w.perm (with_defaults w.local_ips rs))

-- `getRoutes`
unfoldable pub get_routes : RouteWorld → Bytes → Bytes → Bytes → Option (List Route)
unfolding end_routes first_found queries or_else of_mx
get_routes w mail_from host auth_user =
    let found = first_found w.find (queries mail_from host auth_user) in
    let from_mx = of_mx (w.lookup_mx host) in end_routes w (or_else found from_mx)

-- ===== src/Examples/Routing.antt =====
-- The choice of routes.
use tmail.Prelude.{true, false, Bool}
use tmail.Text.{has_byte, trim_space, lower_byte, trim_left, is_space}
use tmail.Deliverd.Routes.Table.{
  NewRoute, RouteTable, Change, adds_route, deletes_route, change_all, change, add_route, del_route,
  mixed,
}
use tmail.Deliverd.Routes.Usable.{IsSoundTable, change_all-IsSoundTable}
use tmail.Text.{split_at_byte, to_lower}
use tmail.Prelude.{
  Bytes, ◌≤◌, ◌<◌, ◌≡◌, ◌≢◌, ◌∷◌, [], ℕ, suc, zero, none, some, Option, List, refl, arith, codes,
  length, All,
}
use tmail.Deliverd.Routes.{Route, RouteWorld, get_routes, value_or, with_default}
use tmail.Deliverd.Routes.Order.{IsOrder, AllNew}
use tmail.Deliverd.Routes.Choice.{Chosen, get_routes-Chosen}

-- The numbers from `n` down.
abbrev countdown : ℕ → List ℕ
countdown zero = []
countdown (suc n) = n ∷ countdown n

length-countdown : (n : ℕ) → length (countdown n) ≡ n
length-countdown zero = refl
length-countdown (suc n) = omega (arith, length-countdown n)

countdown-below : (n m : ℕ) → n ≤ m → All (λ k. k < m) (countdown n)
countdown-below zero m h = tt
countdown-below (suc n) m h = (omega arith, countdown-below n m (omega arith))

countdown-differs : (n m : ℕ) → n ≤ m → All (λ k. k ≢ m) (countdown n)
countdown-differs zero m h = tt
countdown-differs (suc n) m h = ((λ e. omega arith), countdown-differs n m (omega arith))

countdown-AllNew : (n : ℕ) → AllNew (countdown n)
unfolding AllNew
countdown-AllNew zero = tt
countdown-AllNew (suc n) = (countdown-differs n n (omega arith), countdown-AllNew n)

countdown-IsOrder : (n : ℕ) → IsOrder n (countdown n)
countdown-IsOrder n = record {
  long = length-countdown n;
  new = countdown-AllNew n;
  below = countdown-below n n (omega arith);
}

-- No route in the table, and three MX records.
abbrev routing : RouteWorld
routing = record {
  find = λ _. some [];
  lookup_mx = λ _. some (
      record { host = codes "b"; pref = 20 }
      ∷ record { host = codes "a"; pref = 10 }
      ∷ record { host = codes "c"; pref = 20 }
      ∷ []);
  local_ips = codes "_";
  perm = λ _ n. countdown n;
}

abbrev remote_hosts : List Route → List Bytes
remote_hosts [] = []
remote_hosts (r ∷ rs) = r.remote_host ∷ remote_hosts rs

abbrev hosts_of : Option (List Route) → List Bytes
hosts_of none = []
hosts_of (some rs) = remote_hosts rs

reversed_pair :
    hosts_of (get_routes routing (codes "al@c.org") (codes "a.org") (codes "al@d.org"))
    ≡ codes "a" ∷ codes "c" ∷ codes "b" ∷ []
unfolding get_routes split_at_byte to_lower value_or with_default
reversed_pair = refl

abbrev routes_of : Option (List Route) → List Route
routes_of none = []
routes_of (some rs) = rs

abbrev result : List Route
result = routes_of (get_routes routing (codes "al@c.org") (codes "a.org") (codes "al@d.org"))

gives_result :
    get_routes routing (codes "al@c.org") (codes "a.org") (codes "al@d.org") ≡ some result
unfolding get_routes split_at_byte to_lower value_or with_default
gives_result = refl

get_routes-Chosen_example :
    Chosen routing
      (λ _ n. countdown-IsOrder n)
      (codes "al@c.org")
      (codes "a.org")
      (codes "al@d.org")
      result
get_routes-Chosen_example =
    get_routes-Chosen routing (λ _ n. countdown-IsOrder n) (codes "al@c.org") (codes "a.org")
      (codes "al@d.org") result gives_result

abbrev new_route : NewRoute
new_route = record {
  host = codes " B.org ";
  local_ip = codes "192.0.2.1&192.0.2.2";
  remote_host = codes "mx.b.org";
  remote_port = 0;
  priority = 1;
  user = [];
  mail_from = [];
  smtp_auth_login = [];
  smtp_auth_passwd = [];
}

abbrev no_routes : RouteTable
no_routes = record { rows = []; next_id = 1 }

abbrev changes : List (Bool × Change)
changes =
    (true, adds_route new_route)
    ∷ (false, deletes_route 1)
    ∷ (true, adds_route (record new_route { local_ip = codes "192.0.2.1&192.0.2.2|192.0.2.3" }))
    ∷ []

one_route : length (change_all changes no_routes).rows ≡ 1
unfolding change_all change add_route del_route mixed has_byte trim_space to_lower lower_byte
    trim_left is_space
one_route = refl

change_all-IsSoundTable_example : IsSoundTable (change_all changes no_routes)
change_all-IsSoundTable_example =
    change_all-IsSoundTable changes no_routes (record { usable = tt; numbered = tt; apart = tt })

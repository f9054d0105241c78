-- ===== src/Deliverd/Routes/Table.antt =====
-- `AddRoute` and `DelRoute` of core/deliverd_route.go.
-- gorm deletes every row where the id of the route is 0.
use tmail.Prelude.{
  Bytes, ◌&&◌, ◌∷◌, ◌++◌, ◌==◌, ◌+◌, if◌then◌else◌, [], ℕ, true, false, Bool, none, some, Option,
  List, length,
}
use tmail.Text.{to_lower, trim_space, has_byte}
use tmail.Deliverd.Routes.{Route}

pub record RouteTable : Type 0 where
  pub rows : List Route
  pub next_id : ℕ

-- The arguments of `AddRoute`.
pub record NewRoute : Type 0 where
  pub host : Bytes
  pub local_ip : Bytes
  pub remote_host : Bytes
  pub remote_port : ℕ
  pub priority : ℕ
  pub user : Bytes
  pub mail_from : Bytes
  pub smtp_auth_login : Bytes
  pub smtp_auth_passwd : Bytes

-- a column that stays null for an empty text
unfoldable pub unless_empty : Bytes → Option Bytes
unless_empty s = if length s == 0 then none else some s

unfoldable pub mixed : Bytes → Bool
mixed ip = has_byte b'&' ip && has_byte b'|' ip

unfoldable pub route_of : ℕ → NewRoute → Route
route_of id n = record {
  id = id;
  host = to_lower (trim_space n.host);
  local_ip = some (trim_space n.local_ip);
  remote_host = to_lower (trim_space n.remote_host);
  remote_port = some (if n.remote_port == 0 then 25 else n.remote_port);
  priority = some n.priority;
  smtp_auth_login = unless_empty (trim_space n.smtp_auth_login);
  smtp_auth_passwd = unless_empty (trim_space n.smtp_auth_passwd);
  mail_from = unless_empty (to_lower (trim_space n.mail_from));
  user = unless_empty (trim_space n.user);
}

-- `AddRoute`; `stored` is whether the database takes the row, and the result whether there is no
-- error
unfoldable pub add_route : Bool → NewRoute → RouteTable → Bool × RouteTable
add_route stored n t =
    if length (to_lower (trim_space n.host)) == 0
    then (false, t)
    else if mixed n.local_ip
    then (false, t)
    else if length (to_lower (trim_space n.remote_host)) == 0
    then (false, t)
    else if stored
    then (true, record { rows = t.rows ++ route_of t.next_id n ∷ []; next_id = t.next_id + 1 })
    else (false, t)

unfoldable pub without_id : ℕ → List Route → List Route
without_id id [] = []
without_id id (r ∷ rs) = let kept = without_id id rs in if r.id == id then kept else r ∷ kept

-- `DelRoute`
unfoldable pub del_route : Bool → ℕ → RouteTable → Bool × RouteTable
del_route deleted id t =
    if deleted
    then (true, record t { rows = if id == 0 then [] else without_id id t.rows })
    else (false, t)

pub data Change : Type 0 where
  adds_route : NewRoute → Change
  deletes_route : ℕ → Change

unfoldable pub change : Bool → Change → RouteTable → RouteTable
change ok (adds_route n) t = (add_route ok n t).1
change ok (deletes_route id) t = (del_route ok id t).1

-- Changes one after the other, each with whether the database does its part.
unfoldable pub change_all : List (Bool × Change) → RouteTable → RouteTable
change_all [] t = t
change_all ((ok, c) ∷ rest) t = change_all rest (change ok c t)

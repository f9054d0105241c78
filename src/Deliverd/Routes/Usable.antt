-- ===== src/Deliverd/Routes/Usable.antt =====
-- What the table of routes keeps.
use tmail.Accounts.Sound.Hosts.{to_lower_idem}
use mathlib.Core.List.{reverse, reverse-cons}
use tmail.Prelude.{◌||◌, All-append, sym, ◌∙◌, ◌+◌, ◌++◌, Bool, refl, length}
use mathlib.Core.Path.{subst}
use tmail.Prelude.{
  Bytes, ◌≡◌, ◌≢◌, ◌<◌, ◌∷◌, ◌==◌, [], ℕ, true, false, some, List, All, arith, inl, inr, Bool-cases,
}
use tmail.Text.{to_lower, trim_left, has_byte, is_space, trim_space}
use tmail.Accounts.Rows.{Apart, All-map, Apart-snoc}
use tmail.Deliverd.Routes.{Route}
use tmail.Deliverd.Routes.Table.{
  RouteTable, without_id, mixed, route_of, add_route, del_route, change, change_all, NewRoute,
  Change, adds_route, deletes_route,
}

-- A route with a host and a remote host in lower case, a port, and local addresses in which
-- failover and round robin are not mixed.
pub record IsUsable (r : Route) : Type 0 where
  pub host : r.host ≢ []
  pub host_lower : to_lower r.host ≡ r.host
  pub remote_host : r.remote_host ≢ []
  pub remote_host_lower : to_lower r.remote_host ≡ r.remote_host
  pub port : r.remote_port ≢ some 0
  pub local_ip : (ip : Bytes) → r.local_ip ≡ some ip → mixed ip ≡ false

pub record IsSoundTable (t : RouteTable) : Type 0 where
  pub usable : All IsUsable t.rows
  pub numbered : All (λ r. r.id < t.next_id) t.rows
  pub apart : Apart (λ r s. r.id ≢ s.id) t.rows

has_byte-trim_left : (b : ℕ) (s : Bytes) → has_byte b (trim_left s) ≡ true → has_byte b s ≡ true
unfolding has_byte trim_left
has_byte-trim_left b [] h = h
has_byte-trim_left b (c ∷ s) h = elim (Bool-cases (is_space c)) [
  | inl space ↦ ground (arith, has_byte-trim_left b s (rw space at h))
  | inr other ↦ rw other at h
]

without_id-All :
    (P : Route → Type 0) (id : ℕ) (rs : List Route) → All P rs → All P (without_id id rs)
unfolding without_id
without_id-All P id [] h = tt
without_id-All P id (r ∷ rs) (p, ps) = elim (Bool-cases (r.id == id)) [
  | inl same ↦ rw same (without_id-All P id rs ps)
  | inr other ↦ rw other (p, without_id-All P id rs ps)
]

without_id-Apart :
    (id : ℕ) (rs : List Route)
    → Apart (λ r s. r.id ≢ s.id) rs
    → Apart (λ r s. r.id ≢ s.id) (without_id id rs)
unfolding without_id
without_id-Apart id [] h = tt
without_id-Apart id (r ∷ rs) (p, ps) = elim (Bool-cases (r.id == id)) [
  | inl same ↦ rw same (without_id-Apart id rs ps)
  | inr other ↦ rw other (without_id-All _ id rs p, without_id-Apart id rs ps)
]

has_byte-append : (b : ℕ) (xs ys : Bytes) → has_byte b (xs ++ ys) ≡ (has_byte b xs || has_byte b ys)
unfolding has_byte
has_byte-append b [] ys = refl
has_byte-append b (x ∷ xs) ys = ground (arith, has_byte-append b xs ys)

has_byte-reverse : (b : ℕ) (s : Bytes) → has_byte b (reverse s) ≡ has_byte b s
unfolding has_byte
has_byte-reverse b [] = refl
has_byte-reverse b (c ∷ s) =
    rw (reverse-cons c s, has_byte-append b (reverse s) (c ∷ []), has_byte-reverse b s)
      (ground arith)

has_byte-trim : (b : ℕ) (s : Bytes) → has_byte b (trim_space s) ≡ true → has_byte b s ≡ true
unfolding trim_space
has_byte-trim b s h =
    let front : has_byte b (reverse (trim_left s)) ≡ true =
      has_byte-trim_left b (reverse (trim_left s)) (sym (has_byte-reverse b _) ∙ h) in
    has_byte-trim_left b s (sym (has_byte-reverse b (trim_left s)) ∙ front)

mixed-trim : (s : Bytes) → mixed s ≡ false → mixed (trim_space s) ≡ false
unfolding mixed
mixed-trim s h = ground (arith, has_byte-trim b'&' s, has_byte-trim b'|' s)

not_empty : (s : Bytes) → (length s == 0) ≡ false → s ≢ []
not_empty [] h = cc
not_empty (c ∷ s) h = λ e. cc

route_of-IsUsable :
    (id : ℕ) (n : NewRoute)
    → (length (to_lower (trim_space n.host)) == 0) ≡ false
    → mixed n.local_ip ≡ false
    → (length (to_lower (trim_space n.remote_host)) == 0) ≡ false
    → IsUsable (route_of id n)
unfolding route_of
route_of-IsUsable id n host local remote = record {
  host = not_empty _ host;
  host_lower = to_lower_idem _;
  remote_host = not_empty _ remote;
  remote_host_lower = to_lower_idem _;
  port = λ e. elim (Bool-cases (n.remote_port == 0)) [
    | inl none_given ↦ ground arith
    | inr given ↦ ground arith
  ];
  local_ip = λ ip e.
      let same : trim_space n.local_ip ≡ ip = ground arith in
      subst (λ x. mixed x ≡ false) same (mixed-trim n.local_ip local);
}

with_route-IsSoundTable :
    (t : RouteTable) (r : Route)
    → r.id ≡ t.next_id
    → IsUsable r
    → IsSoundTable t
    → IsSoundTable (record { rows = t.rows ++ r ∷ []; next_id = t.next_id + 1 })
with_route-IsSoundTable t r id ok s = record {
  usable = All-append _ t.rows (r ∷ []) s.usable (ok, tt);
  numbered =
      All-append _ t.rows (r ∷ []) (All-map t.rows (λ x less. omega arith) s.numbered)
        (omega (arith, id), tt);
  apart = Apart-snoc _ t.rows r s.apart (All-map t.rows (λ x less e. omega (arith, id)) s.numbered);
}

add_route-IsSoundTable :
    (ok : Bool) (n : NewRoute) (t : RouteTable) → IsSoundTable t → IsSoundTable (add_route ok n t).1
unfolding add_route
add_route-IsSoundTable ok n t s = elim (Bool-cases (length (to_lower (trim_space n.host)) == 0)) [
  | inl a ↦ rw a s
  | inr host ↦ elim (Bool-cases (mixed n.local_ip)) [
    | inl a ↦ rw (host, a) s
    | inr local ↦ elim (Bool-cases (length (to_lower (trim_space n.remote_host)) == 0)) [
      | inl a ↦ rw (host, local, a) s
      | inr remote ↦ elim (Bool-cases ok) [
        | inl a ↦
            rw (host, local, remote, a)
              (with_route-IsSoundTable t (route_of t.next_id n) (unfold route_of in refl)
                (route_of-IsUsable t.next_id n host local remote) s)
        | inr a ↦ rw (host, local, remote, a) s
      ]
    ]
  ]
]

del_route-IsSoundTable :
    (ok : Bool) (id : ℕ) (t : RouteTable) → IsSoundTable t → IsSoundTable (del_route ok id t).1
unfolding del_route
del_route-IsSoundTable false id t s = s
del_route-IsSoundTable true id t s = elim (Bool-cases (id == 0)) [
  | inl every ↦ rw every (record { usable = tt; numbered = tt; apart = tt })
  | inr one ↦ rw one (record {
    usable = without_id-All _ id t.rows s.usable;
    numbered = without_id-All _ id t.rows s.numbered;
    apart = without_id-Apart id t.rows s.apart;
  })
]

change-IsSoundTable :
    (ok : Bool) (c : Change) (t : RouteTable) → IsSoundTable t → IsSoundTable (change ok c t)
unfolding change
change-IsSoundTable ok (adds_route n) t = add_route-IsSoundTable ok n t
change-IsSoundTable ok (deletes_route id) t = del_route-IsSoundTable ok id t

-- If the table of routes is sound, it is sound after any calls of AddRoute and DelRoute, whichever
-- of them the database refuses: each route has a host and a remote host in lower case and a port
-- that is not 0, no route mixes failover and round robin of its local addresses, and no two routes
-- have one id.
pub change_all-IsSoundTable :
    (cs : List (Bool × Change)) (t : RouteTable) → IsSoundTable t → IsSoundTable (change_all cs t)
unfolding change_all
change_all-IsSoundTable [] t s = s
change_all-IsSoundTable ((ok, c) ∷ rest) t s =
    change_all-IsSoundTable rest (change ok c t) (change-IsSoundTable ok c t s)

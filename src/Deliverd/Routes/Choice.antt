-- ===== src/Deliverd/Routes/Choice.antt =====
-- Which routes `getRoutes` takes.
use tmail.Prelude.{
  Bytes, ◌≡◌, ◌∷◌, ◌++◌, ◌∙◌, [], ℕ, Bool, none, some, Option, List, refl, ap, arith, All,
}
use tmail.Deliverd.Routes.{
  Route, Where, RouteWorld, first_found, get_routes, Mx, or_else, queries, end_routes, of_mx,
  mx_routes, with_defaults, order_routes,
}
use tmail.Deliverd.Routes.Order.{count_routes, IsOrder}
use tmail.Deliverd.Routes.Kept.{Ordered, order_routes_correct}

-- A query that finds routes, behind queries that find none.
pub record FoundBy (find : Where → Option (List Route)) (qs : List Where) (rs : List Route)
    : Type 0 where
  pub before : List Where
  pub query : Where
  pub after : List Where
  pub split_up : qs ≡ before ++ query ∷ after
  pub none_before : All (λ q. find q ≡ some []) before
  pub gives : find query ≡ some rs

-- Where the routes come from: the first query that finds any, or the MX records of the host if no
-- query does.
pub data Origin (w : RouteWorld) (host : Bytes) (qs : List Where) (rs : List Route) : Type 0 where
  by_table : FoundBy w.find qs rs → Origin w host qs rs
  by_mx :
      (mxs : List Mx)
      → All (λ q. w.find q ≡ some []) qs
      → w.lookup_mx host ≡ some mxs
      → rs ≡ mx_routes mxs
      → Origin w host qs rs

first_found-some :
    (find : Where → Option (List Route)) (qs : List Where) (r : Route) (rs : List Route)
    → first_found find qs ≡ some (r ∷ rs)
    → FoundBy find qs (r ∷ rs)
unfolding first_found or_else
first_found-some find [] r rs h = cc
first_found-some find (q ∷ qs) r rs h = go (find q) (first_found-some find qs r rs) refl h
  where
    go :
        (o : Option (List Route))
        → (first_found find qs ≡ some (r ∷ rs) → FoundBy find qs (r ∷ rs))
        → find q ≡ o
        → or_else o (first_found find qs) ≡ some (r ∷ rs)
        → FoundBy find (q ∷ qs) (r ∷ rs)
    go none again e k = cc
    go (some []) again e k =
        let f = again k in
        record {
          before = q ∷ f.before;
          query = f.query;
          after = f.after;
          split_up = ap (λ x. q ∷ x) f.split_up;
          none_before = (e, f.none_before);
          gives = f.gives;
        }
    go (some (x ∷ xs)) again e k = record {
      before = [];
      query = q;
      after = qs;
      split_up = refl;
      none_before = tt;
      gives = e ∙ k;
    }

first_found-nil :
    (find : Where → Option (List Route)) (qs : List Where)
    → first_found find qs ≡ some []
    → All (λ q. find q ≡ some []) qs
unfolding first_found or_else
first_found-nil find [] h = tt
first_found-nil find (q ∷ qs) h = go (find q) (first_found-nil find qs) refl h
  where
    go :
        (o : Option (List Route))
        → (first_found find qs ≡ some [] → All (λ q. find q ≡ some []) qs)
        → find q ≡ o
        → or_else o (first_found find qs) ≡ some []
        → All (λ q. find q ≡ some []) (q ∷ qs)
    go none again e k = cc
    go (some []) again e k = (e, again k)
    go (some (x ∷ xs)) again e k = cc

module _ (w : RouteWorld) (good : (p n : ℕ) → IsOrder n (w.perm p n)) where
  -- What `getRoutes` promises of its result.
  pub record Chosen (mail_from host auth_user : Bytes) (result : List Route) : Type 0 where
    pub found : List Route
    pub origin : Origin w host (queries mail_from host auth_user) found
    pub ordered : Ordered result
    pub kept :
        (f : Route → Bool)
        → count_routes f result ≡ count_routes f (with_defaults w.local_ips found)

  choose :
      (mail_from host auth_user : Bytes) (found result : List Route)
      → Origin w host (queries mail_from host auth_user) found
      → end_routes w (some found) ≡ some result
      → Chosen mail_from host auth_user result
  unfolding end_routes
  choose mail_from host auth_user found result o h =
      let same : order_routes w.perm (with_defaults w.local_ips found) ≡ result = ground arith in
      let (up, kept) = order_routes_correct w.perm good (with_defaults w.local_ips found) in
      rw (← same) (record { found = found; origin = o; ordered = up; kept = kept })

  from_mx :
      (mail_from host auth_user : Bytes) (o : Option (List Mx)) (result : List Route)
      → All (λ q. w.find q ≡ some []) (queries mail_from host auth_user)
      → w.lookup_mx host ≡ o
      → end_routes w (of_mx o) ≡ some result
      → Chosen mail_from host auth_user result
  unfolding of_mx end_routes
  from_mx mail_from host auth_user none result empty e h = cc
  from_mx mail_from host auth_user (some mxs) result empty e h =
      choose mail_from host auth_user (mx_routes mxs) result (by_mx mxs empty e refl) h

  -- The routes that `getRoutes` gives are, with their defaults filled in, those of the first of its
  -- queries that finds any, or those of the MX records of the host if no query does: each as often,
  -- in ascending priority. This is so where `rand.Perm(n)` gives `n` different numbers below `n`.
  pub get_routes-Chosen :
      (mail_from host auth_user : Bytes) (result : List Route)
      → get_routes w mail_from host auth_user ≡ some result
      → Chosen mail_from host auth_user result
  unfolding get_routes or_else end_routes
  get_routes-Chosen mail_from host auth_user result h =
      go (first_found w.find (queries mail_from host auth_user)) refl h
    where
      go :
          (o : Option (List Route))
          → first_found w.find (queries mail_from host auth_user) ≡ o
          → end_routes w (or_else o (of_mx (w.lookup_mx host))) ≡ some result
          → Chosen mail_from host auth_user result
      go none e k = cc
      go (some []) e k =
          from_mx mail_from host auth_user (w.lookup_mx host) result
            (first_found-nil w.find (queries mail_from host auth_user) e) refl k
      go (some (r ∷ rs)) e k =
          choose mail_from host auth_user (r ∷ rs) result
            (by_table (first_found-some w.find (queries mail_from host auth_user) r rs e)) k

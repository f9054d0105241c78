-- ===== src/Deliverd/Routes/Kept.antt =====
-- `getRoutes` gives the routes that it found, in ascending priority.
use tmail.Prelude.{
  ◌+◌, ◌≤◌, ◌<◌, ◌≡◌, ◌≢◌, ◌∷◌, ◌++◌, ◌==◌, ◌∙◌, if◌then◌else◌, [], ℕ, Bool, List, refl, inl, inr,
  arith, not, ltb, All, Bool-cases,
}
use tmail.Deliverd.Routes.{
  Route, order_routes, with_priority, insert_priority, priorities, priority_of, by_priority,
  shuffled,
}
use tmail.Deliverd.Routes.Order.{count_routes, count-append, IsOrder, count-shuffled}

-- The sum of the counts of the groups.
unfoldable total : (Route → Bool) → List ℕ → List Route → ℕ
total f [] rs = 0
total f (p ∷ ps) rs = count_routes f (with_priority p rs) + total f ps rs

unfoldable occ : ℕ → List ℕ → ℕ
occ p [] = 0
occ p (q ∷ qs) = (if p == q then 1 else 0) + occ p qs

total-nil : (f : Route → Bool) (ps : List ℕ) → total f ps [] ≡ 0
unfolding total count_routes with_priority
total-nil f [] = refl
total-nil f (p ∷ ps) = omega (arith, total-nil f ps)

total-concat :
    (f : Route → Bool) (r : Route) (rs : List Route) (ps : List ℕ)
    → total f ps (r ∷ rs) ≡ (if f r then occ (priority_of r) ps else 0) + total f ps rs
unfolding total count_routes with_priority occ
total-concat f r rs [] = ground arith
total-concat f r rs (p ∷ ps) = ground (arith, total-concat f r rs ps)

-- Each priority is greater than the one before.
unfoldable Increasing : List ℕ → Type 0
Increasing [] = Unit
Increasing (p ∷ ps) = All (λ q. p < q) ps × Increasing ps

All-insert_priority :
    (m p : ℕ) (ps : List ℕ) → m < p → All (λ q. m < q) ps → All (λ q. m < q) (insert_priority p ps)
unfolding insert_priority
All-insert_priority m p [] h k = (h, tt)
All-insert_priority m p (q ∷ qs) h k = ground (arith, All-insert_priority m p qs h k.1)

All-below : (m p : ℕ) (ps : List ℕ) → m < p → All (λ q. p < q) ps → All (λ q. m < q) ps
All-below m p [] h k = tt
All-below m p (q ∷ qs) h k = (omega (arith, k.0), All-below m p qs h k.1)

insert_priority-Increasing :
    (p : ℕ) (ps : List ℕ) → Increasing ps → Increasing (insert_priority p ps)
unfolding insert_priority Increasing
insert_priority-Increasing p [] h = (tt, tt)
insert_priority-Increasing p (q ∷ qs) h = elim (Bool-cases (p == q)) [
  | inl same ↦ rw same h
  | inr other ↦ elim (Bool-cases (ltb p q)) [
    | inl less ↦ rw (other, less) ((ground arith, All-below p q qs (ground arith) h.0), h)
    | inr more ↦
        rw (other, more)
          (All-insert_priority q p qs (ground arith) h.0, insert_priority-Increasing p qs h.1)
  ]
]

priorities-Increasing : (rs : List Route) → Increasing (priorities rs)
unfolding priorities Increasing
priorities-Increasing [] = tt
priorities-Increasing (r ∷ rs) =
    insert_priority-Increasing (priority_of r) (priorities rs) (priorities-Increasing rs)

occ-above : (p : ℕ) (ps : List ℕ) → All (λ q. p < q) ps → occ p ps ≡ 0
unfolding occ
occ-above p [] h = refl
occ-above p (q ∷ qs) h = ground (arith, occ-above p qs h.1, h.0)

occ-insert_same : (p : ℕ) (ps : List ℕ) → Increasing ps → occ p (insert_priority p ps) ≡ 1
unfolding occ insert_priority Increasing
occ-insert_same p [] h = ground arith
occ-insert_same p (q ∷ qs) h =
    ground (arith, occ-above p qs, occ-above q qs h.0, occ-insert_same p qs h.1, All-below p q qs)

occ-insert_other : (p r : ℕ) (ps : List ℕ) → r ≢ p → occ r (insert_priority p ps) ≡ occ r ps
unfolding occ insert_priority
occ-insert_other p r [] h = ground arith
occ-insert_other p r (q ∷ qs) h = ground (arith, occ-insert_other p r qs h)

occ-insert :
    (p r : ℕ) (ps : List ℕ) → Increasing ps → occ r ps ≡ 1 → occ r (insert_priority p ps) ≡ 1
occ-insert p r ps h k = elim (Bool-cases (r == p)) [
  | inl same ↦ let e : r ≡ p = ground arith in rw e (occ-insert_same p ps h)
  | inr other ↦ occ-insert_other p r ps (ground arith) ∙ k
]

-- Every route has its priority in the list once.
abbrev Listed : List ℕ → List Route → Type 0
Listed ps rs = All (λ r. occ (priority_of r) ps ≡ 1) rs

Listed-insert :
    (p : ℕ) (ps : List ℕ) (rs : List Route)
    → Increasing ps
    → Listed ps rs
    → Listed (insert_priority p ps) rs
Listed-insert p ps [] h k = tt
Listed-insert p ps (r ∷ rs) h k =
    (occ-insert p (priority_of r) ps h k.0, Listed-insert p ps rs h k.1)

priorities-Listed : (rs : List Route) → Listed (priorities rs) rs
unfolding priorities
priorities-Listed [] = tt
priorities-Listed (r ∷ rs) =
    let up = priorities-Increasing rs in
    (
      occ-insert_same (priority_of r) (priorities rs) up,
      Listed-insert (priority_of r) (priorities rs) rs up (priorities-Listed rs),
    )

total-Listed :
    (f : Route → Bool) (ps : List ℕ) (rs : List Route)
    → Listed ps rs
    → total f ps rs ≡ count_routes f rs
unfolding count_routes
total-Listed f ps [] h = total-nil f ps
total-Listed f ps (r ∷ rs) h = ground (arith, total-concat f r rs ps, total-Listed f ps rs h.1, h.0)

-- Every route comes behind those of a lower priority.
unfoldable pub Ordered : List Route → Type 0
Ordered [] = Unit
Ordered (r ∷ rs) = All (λ s. priority_of r ≤ priority_of s) rs × Ordered rs

-- What has another priority than `p`.
abbrev strays : ℕ → Route → Bool
strays p r = not (priority_of r == p)

count-strays-with_priority :
    (p : ℕ) (rs : List Route) → count_routes (strays p) (with_priority p rs) ≡ 0
unfolding count_routes with_priority
count-strays-with_priority p [] = refl
count-strays-with_priority p (r ∷ rs) = ground (arith, count-strays-with_priority p rs)

no_strays :
    (p : ℕ) (rs : List Route) → count_routes (strays p) rs ≡ 0 → All (λ r. priority_of r ≡ p) rs
unfolding count_routes
no_strays p [] h = tt
no_strays p (r ∷ rs) h = (ground arith, no_strays p rs (ground arith))

All-append_at_least :
    (m p : ℕ) (a b : List Route)
    → m ≤ p
    → All (λ r. priority_of r ≡ p) a
    → All (λ r. m ≤ priority_of r) b
    → All (λ r. m ≤ priority_of r) (a ++ b)
All-append_at_least m p [] b h k l = l
All-append_at_least m p (r ∷ a) b h k l = (omega (arith, k.0), All-append_at_least m p a b h k.1 l)

Ordered-append :
    (p : ℕ) (a b : List Route)
    → All (λ r. priority_of r ≡ p) a
    → All (λ r. p ≤ priority_of r) b
    → Ordered b
    → Ordered (a ++ b)
unfolding Ordered
Ordered-append p [] b k l o = o
Ordered-append p (r ∷ a) b k l o = (
  All-append_at_least (priority_of r) p a b (omega (arith, k.0)) k.1 (rw k.0 l),
  Ordered-append p a b k.1 l o,
)

module _ (perm : ℕ → ℕ → List ℕ) (good : (p n : ℕ) → IsOrder n (perm p n)) where
  count-by_priority :
      (f : Route → Bool) (ps : List ℕ) (rs : List Route)
      → count_routes f (by_priority perm ps rs) ≡ total f ps rs
  unfolding by_priority total count_routes
  count-by_priority f [] rs = refl
  count-by_priority f (p ∷ ps) rs = omega (
    arith,
    count-append f (shuffled (perm p) (with_priority p rs)) (by_priority perm ps rs),
    count-shuffled f (perm p) (with_priority p rs) (good p),
    count-by_priority f ps rs,
  )

  shuffled-All :
      (p : ℕ) (rs : List Route)
      → All (λ r. priority_of r ≡ p) (shuffled (perm p) (with_priority p rs))
  shuffled-All p rs = no_strays p (shuffled (perm p) (with_priority p rs)) (
      count-shuffled (strays p) (perm p) (with_priority p rs) (good p)
      ∙ count-strays-with_priority p rs)

  by_priority-above :
      (m : ℕ) (ps : List ℕ) (rs : List Route)
      → All (λ q. m < q) ps
      → All (λ r. m ≤ priority_of r) (by_priority perm ps rs)
  unfolding by_priority
  by_priority-above m [] rs h = tt
  by_priority-above m (p ∷ ps) rs h =
      All-append_at_least m p (shuffled (perm p) (with_priority p rs)) (by_priority perm ps rs)
        (omega (arith, h.0)) (shuffled-All p rs) (by_priority-above m ps rs h.1)

  by_priority-Ordered :
      (ps : List ℕ) (rs : List Route) → Increasing ps → Ordered (by_priority perm ps rs)
  unfolding by_priority Increasing Ordered
  by_priority-Ordered [] rs h = tt
  by_priority-Ordered (p ∷ ps) rs h =
      Ordered-append p (shuffled (perm p) (with_priority p rs)) (by_priority perm ps rs)
        (shuffled-All p rs) (by_priority-above p ps rs h.0) (by_priority-Ordered ps rs h.1)

  -- The routes are put in ascending priority, and stay the same routes, each as often.
  pub order_routes_correct :
      (rs : List Route)
      → Ordered (order_routes perm rs)
        × ((f : Route → Bool) → count_routes f (order_routes perm rs) ≡ count_routes f rs)
  unfolding order_routes
  order_routes_correct rs = (
    by_priority-Ordered (priorities rs) rs (priorities-Increasing rs),
    λ f.
        count-by_priority f (priorities rs) rs
        ∙ total-Listed f (priorities rs) rs (priorities-Listed rs),
  )

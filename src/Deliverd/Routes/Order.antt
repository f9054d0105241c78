-- ===== src/Deliverd/Routes/Order.antt =====
-- The order in which routes are tried.
use tmail.Prelude.{
  ◌+◌, ◌*◌, ◌<◌, ◌≡◌, ◌≢◌, ◌∷◌, ◌++◌, if◌then◌else◌, [], ℕ, suc, zero, Bool, List, refl, ap, arith,
  length, All,
}
use tmail.Deliverd.Routes.{Route, set_at, scatter, no_route, empty_routes, shuffled}

abbrev bit : Bool → ℕ
bit b = if b then 1 else 0

-- How many of the routes pass a test. Two lists with the same counts hold the same routes, each as
-- often.
unfoldable pub count_routes : (Route → Bool) → List Route → ℕ
count_routes f [] = 0
count_routes f (r ∷ rs) = (if f r then 1 else 0) + count_routes f rs

pub count-append :
    (f : Route → Bool) (a b : List Route)
    → count_routes f (a ++ b) ≡ count_routes f a + count_routes f b
unfolding count_routes
count-append f [] b = omega arith
count-append f (r ∷ a) b = omega (arith, count-append f a b)

-- The place `n` holds no route yet.
unfoldable IsFree : ℕ → List Route → Type 0
IsFree n [] = ⊥
IsFree zero (r ∷ t) = r ≡ no_route
IsFree (suc n) (r ∷ t) = IsFree n t

count-set_at :
    (f : Route → Bool) (n : ℕ) (r : Route) (t : List Route)
    → IsFree n t
    → count_routes f (set_at n r t) + bit (f no_route) ≡ count_routes f t + bit (f r)
unfolding count_routes set_at IsFree
count-set_at f n r [] h = absurd h
count-set_at f zero r (x ∷ t) h = rw h (omega arith)
count-set_at f (suc n) r (x ∷ t) h = omega (arith, count-set_at f n r t h)

IsFree-set_at :
    (n m : ℕ) (r : Route) (t : List Route) → n ≢ m → IsFree n t → IsFree n (set_at m r t)
unfolding set_at IsFree
IsFree-set_at n m r [] ne h = h
IsFree-set_at zero zero r (x ∷ t) ne h = absurd (ne refl)
IsFree-set_at zero (suc m) r (x ∷ t) ne h = h
IsFree-set_at (suc n) zero r (x ∷ t) ne h = h
IsFree-set_at (suc n) (suc m) r (x ∷ t) ne h = IsFree-set_at n m r t (λ e. ne (ap suc e)) h

-- The places are all different.
unfoldable pub AllNew : List ℕ → Type 0
AllNew [] = Unit
AllNew (n ∷ ns) = All (λ m. m ≢ n) ns × AllNew ns

All-IsFree :
    (ns : List ℕ) (m : ℕ) (r : Route) (t : List Route)
    → All (λ n. n ≢ m) ns
    → All (λ n. IsFree n t) ns
    → All (λ n. IsFree n (set_at m r t)) ns
All-IsFree [] m r t ne h = tt
All-IsFree (n ∷ ns) m r t ne h = (IsFree-set_at n m r t ne.0 h.0, All-IsFree ns m r t ne.1 h.1)

count-scatter :
    (f : Route → Bool) (order : List ℕ) (rs t : List Route)
    → length order ≡ length rs
    → AllNew order
    → All (λ n. IsFree n t) order
    → count_routes f (scatter order rs t) + length rs * bit (f no_route)
      ≡ count_routes f t + count_routes f rs
unfolding scatter count_routes AllNew
count-scatter f [] [] t e new free = omega arith
count-scatter f (o ∷ order) [] t e new free = absurd (omega arith)
count-scatter f [] (r ∷ rs) t e new free = absurd (omega arith)
count-scatter f (o ∷ order) (r ∷ rs) t e new free = omega (
  arith,
  count-scatter f order rs (set_at o r t) (omega arith) new.1 (All-IsFree order o r t new.0 free.1),
  count-set_at f o r t free.0,
)

count-empty_routes :
    (f : Route → Bool) (n : ℕ) → count_routes f (empty_routes n) ≡ n * bit (f no_route)
unfolding count_routes empty_routes
count-empty_routes f zero = omega arith
count-empty_routes f (suc n) = omega (arith, count-empty_routes f n)

empty_routes-IsFree : (n m : ℕ) → m < n → IsFree m (empty_routes n)
unfolding empty_routes IsFree
empty_routes-IsFree zero m h = absurd (omega arith)
empty_routes-IsFree (suc n) zero h = refl
empty_routes-IsFree (suc n) (suc m) h = empty_routes-IsFree n m (omega arith)

All-IsFree-empty_routes :
    (n : ℕ) (order : List ℕ) → All (λ m. m < n) order → All (λ m. IsFree m (empty_routes n)) order
All-IsFree-empty_routes n [] h = tt
All-IsFree-empty_routes n (m ∷ order) h =
    (empty_routes-IsFree n m h.0, All-IsFree-empty_routes n order h.1)

-- `rand.Perm(n)` gives `n` different numbers below `n`.
pub record IsOrder (n : ℕ) (order : List ℕ) : Type 0 where
  pub long : length order ≡ n
  pub new : AllNew order
  pub below : All (λ m. m < n) order

pub count-shuffled :
    (f : Route → Bool) (perm : ℕ → List ℕ) (rs : List Route)
    → ((n : ℕ) → IsOrder n (perm n))
    → count_routes f (shuffled perm rs) ≡ count_routes f rs
unfolding shuffled
count-shuffled f perm rs h =
    let n = length rs in
    let o = h n in
    ground (
      arith,
      count-scatter f (perm n) rs (empty_routes n) o.long o.new
          (All-IsFree-empty_routes n (perm n) o.below),
      count-empty_routes f n,
    )

-- ===== src/Deliverd/Delay.antt =====
-- How long a message waits for its next attempt.
use tmail.Prelude.{◌+◌, ◌*◌, ◌≤◌, ◌<◌, ◌⊎◌, ℕ, zero, suc, arith}
use tmail.Deliverd.{World, delay_of, short_delay}

product_bounds : (a x : ℕ) → 60 ≤ x → x ≤ 239 → (60 * a ≤ a * x) × (a * x ≤ 239 * a)
product_bounds zero x l u = (omega arith, omega arith)
product_bounds (suc a) x l u =
    let (low, high) = product_bounds a x l u in (omega arith, omega arith)

-- Up to 274 attempts nothing is lost modulo 2 ^ 16.
short_delay_bounds :
    (a r : ℕ) → r < 180 → a ≤ 274 → (60 * a ≤ short_delay a r) × (short_delay a r ≤ 239 * a)
unfolding short_delay
short_delay_bounds a r h n =
    let (low, high) = product_bounds a (r + 60) (omega arith) (omega arith) in
    (omega arith, omega arith)

-- A message that is requeued waits less than an hour, whatever the count of attempts is. Up to 15
-- attempts it waits between 60 and 239 seconds for each of them. From 16 to 59 attempts it waits
-- between 60 seconds for each of them and an hour, or between 1599 and 3598 seconds; from 60 to 274
-- attempts always between 1599 and 3598. The random numbers are below 180 and 2000.
pub delay_of_bounds :
    (w : World)
    → w.rand_180 < 180
    → w.rand_2000 < 2000
    → (delay_of w < 3600)
      × (w.attempts ≤ 15 → (60 * w.attempts ≤ delay_of w) × (delay_of w ≤ 239 * w.attempts))
      × (w.attempts ≤ 274
          → (60 * w.attempts ≤ delay_of w) ⊎ ((1599 ≤ delay_of w) × (delay_of w ≤ 3598)))
      × (60 ≤ w.attempts → w.attempts ≤ 274 → (1599 ≤ delay_of w) × (delay_of w ≤ 3598))
unfolding delay_of
delay_of_bounds w short long =
    let bounds = short_delay_bounds w.attempts w.rand_180 short in
    (
      ground arith,
      λ few. ground (arith, bounds (omega arith)),
      λ k. ground (arith, bounds k),
      λ many k. ground (arith, bounds k),
    )

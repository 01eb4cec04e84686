-- ===== src/Retry/Bounds.antt =====
-- The range of the delays of src/retry.rs under each jitter.
use native.Mathlib.Nat.{min-le_left}
use beave_rs.Base.{ℕ, ◌+◌, ◌-◌, ◌*◌, ◌/◌, ◌^◌, ◌≤◌, ◌<◌, min, arith}
use beave_rs.Retry.{
  Jitter, exact, full, equal, RetryPolicy, u64_max, capped_delay, random_up_to, with_jitter, delay,
}

-- Scaling `random < 2 ^ 64` by `n + 1` and dividing by `2 ^ 64` gives at most `n`.
scale_bound : (random n : ℕ) → random < 2 ^ 64 → random * (n + 1) / 2 ^ 64 ≤ n
scale_bound random n h = grind arith

random_up_to-le : (max random : ℕ) → random < 2 ^ 64 → random_up_to max random ≤ max
unfolding random_up_to
random_up_to-le max random h =
    ground (arith, scale_bound random (min max u64_max) h, min-le_left max u64_max)

abbrev pub lower : Jitter → ℕ → ℕ
lower exact d = d
lower full d = 0
lower equal d = d / 2

with_jitter_bounds :
    (j : Jitter) (d random : ℕ)
    → random < 2 ^ 64
    → (lower j d ≤ with_jitter j d random) × (with_jitter j d random ≤ d)
unfolding with_jitter
with_jitter_bounds exact d random h = omega arith
with_jitter_bounds full d random h = omega (arith, random_up_to-le d random h)
with_jitter_bounds equal d random h = omega (arith, random_up_to-le (d - d / 2) random h)

-- For every policy, every 64-bit random value and every number of failures, the delay lies between
-- the jitter's lower end (all, none or half of the capped delay) and the capped delay, which is at
-- most `max_delay`.
pub delay_bounds :
    (p : RetryPolicy) (random failures : ℕ)
    → random < 2 ^ 64
    → (lower p.jitter (capped_delay p failures) ≤ delay p random failures)
      × (delay p random failures ≤ capped_delay p failures)
      × (capped_delay p failures ≤ p.max_delay)
unfolding delay
delay_bounds p random failures h =
    omega (arith, with_jitter_bounds p.jitter (capped_delay p failures) random h)

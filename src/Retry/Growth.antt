-- ===== src/Retry/Growth.antt =====
-- The exponential growth of the delay of src/retry.rs before jitter.
use native.Mathlib.Nat.{pow-le-pow_right, min-le_right, mul-le-mul_left}
use beave_rs.Base.{ℕ, ◌-◌, ◌*◌, ◌^◌, ◌≤◌, ◌≡◌, min, arith}
use beave_rs.Retry.{RetryPolicy, duration_max, saturating_pow, saturating_mul, capped_delay}

pow_small : (e : ℕ) → e ≤ 31 → 2 ^ e ≤ 2 ^ 31
pow_small e h = pow-le-pow_right (omega arith) h

saturating_pow_exact : (e : ℕ) → e ≤ 31 → saturating_pow e ≡ 2 ^ e
unfolding saturating_pow
saturating_pow_exact e h = omega (arith, pow_small e h)

saturating_pow_mono : (d e : ℕ) → d ≤ e → saturating_pow d ≤ saturating_pow e
unfolding saturating_pow
saturating_pow_mono d e h = omega (arith, pow-le-pow_right {n = 2} (omega arith) h)

exponent_mono : (f g : ℕ) → f ≤ g → min (f - 1) 31 ≤ min (g - 1) 31
exponent_mono f g h = omega arith

-- The delay of a policy whose durations fit `Duration` doubles from `initial_delay` with every
-- failure up to the 32nd, then stays, and is capped at `max_delay`.
pub capped_delay_lem :
    (p : RetryPolicy) (failures : ℕ)
    → p.max_delay ≤ duration_max
    → capped_delay p failures ≡ min (p.initial_delay * 2 ^ min (failures - 1) 31) p.max_delay
unfolding capped_delay saturating_mul
capped_delay_lem p failures h =
    rw (saturating_pow_exact (min (failures - 1) 31) (min-le_right _ 31)) (omega arith)

-- More failures never make the capped delay shorter.
capped_delay_mono : (p : RetryPolicy) (f g : ℕ) → f ≤ g → capped_delay p f ≤ capped_delay p g
unfolding capped_delay saturating_mul
capped_delay_mono p f g h =
    omega (arith, mul-le-mul_left p.initial_delay (saturating_pow_mono _ _ (exponent_mono f g h)))

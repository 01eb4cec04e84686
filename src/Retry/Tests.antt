-- ===== src/Retry/Tests.antt =====
-- Delays of policies of src/retry.rs, and the theorems on one of them.
use beave_rs.Base.{◌-◌, ◌*◌, ◌^◌, ◌≤◌, ◌≡◌, min, arith, refl}
use beave_rs.Retry.{equal, RetryPolicy, capped_delay, delay, saturating_mul, saturating_pow}
use beave_rs.Retry.Bounds.{lower, delay_bounds}
use beave_rs.Retry.Growth.{capped_delay_lem}

-- One second, doubled up to ten seconds.
abbrev doubling : RetryPolicy
doubling = record {
  max_attempts = 10;
  initial_delay = 1000000000;
  max_delay = 10000000000;
  jitter = equal;
}

fourth_delay : delay doubling (2 ^ 63) 4 ≡ 6000000000
unfolding delay saturating_mul saturating_pow
fourth_delay = refl

delay_bounds_example :
    (lower equal (capped_delay doubling 4) ≤ delay doubling (2 ^ 63) 4)
    × (delay doubling (2 ^ 63) 4 ≤ capped_delay doubling 4)
    × (capped_delay doubling 4 ≤ 10000000000)
delay_bounds_example = delay_bounds doubling (2 ^ 63) 4 (omega arith)

capped_delay_lem_example :
    capped_delay doubling 3 ≡ min (1000000000 * 2 ^ min (3 - 1) 31) 10000000000
capped_delay_lem_example = capped_delay_lem doubling 3 (omega arith)

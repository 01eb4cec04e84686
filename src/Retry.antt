-- ===== src/Retry.antt =====
-- src/retry.rs: capped exponential backoff with bounded attempts and jitter.
-- A `Duration` is its number of nanoseconds, at most `duration_max`. The 64-bit output of the
-- randomly keyed hasher is the argument `random`.
pub mod Bounds
pub mod Growth
mod Tests
use beave_rs.Base.{
  ℕ, ◌+◌, ◌-◌, ◌*◌, ◌/◌, ◌%◌, ◌^◌, min, Bool, String, nat_beq, ltb, if◌then◌else◌, Option, none,
  some,
}

-- u64::MAX seconds and 999_999_999 nanoseconds.
abbrev pub duration_max : ℕ
duration_max = 2 ^ 64 * 1000000000 - 1

abbrev pub u64_max : ℕ
u64_max = 2 ^ 64 - 1

abbrev pub u32_max : ℕ
u32_max = 2 ^ 32 - 1

pub data Jitter : Type 0 where
  exact full equal : Jitter  -- `Jitter::None`, `Full`, `Equal`

pub record RetryPolicy : Type 0 where
  pub max_attempts : ℕ
  pub initial_delay : ℕ
  pub max_delay : ℕ
  pub jitter : Jitter

abbrev pub default_policy : RetryPolicy
default_policy = record {
  max_attempts = 3;
  initial_delay = 100000000;
  max_delay = 5000000000;
  jitter = exact;
}

-- `u32::saturating_pow` at base 2, and `Duration::saturating_mul`.
pub saturating_pow : ℕ → ℕ
saturating_pow e = min (2 ^ e) u32_max

pub saturating_mul : ℕ → ℕ → ℕ
saturating_mul d n = min (d * n) duration_max

-- The delay before jitter.
pub capped_delay : RetryPolicy → ℕ → ℕ
capped_delay p failures =
    min (saturating_mul p.initial_delay (saturating_pow (min (failures - 1) 31))) p.max_delay

-- Uniform in `[0, max]`: 64 random bits scaled by `nanos + 1`.
pub random_up_to : ℕ → ℕ → ℕ
random_up_to max random =
    let nanos = min max u64_max in
    if nat_beq nanos 0 then 0 else (random * (nanos + 1) / 2 ^ 64) % 2 ^ 64

pub with_jitter : Jitter → ℕ → ℕ → ℕ
unfolding random_up_to
with_jitter exact delay random = delay
with_jitter full delay random = random_up_to delay random
with_jitter equal delay random = delay / 2 + random_up_to (delay - delay / 2) random

unfoldable pub delay : RetryPolicy → ℕ → ℕ → ℕ
unfolding capped_delay with_jitter
delay p random failures = with_jitter p.jitter (capped_delay p failures) random

pub data ConfigError : Type 0 where
  max_attempts_must_be_positive : ConfigError

pub validate : RetryPolicy → Option ConfigError
validate p = if ltb 0 p.max_attempts then none else some max_attempts_must_be_positive

-- ===== src/Errors/Retrying.antt =====
-- The retry strategies (rediq/src/error.rs). Durations are nanoseconds; the float of the exponential
-- strategy is an argument: `scaled` is what `initial_delay * multiplier^n` truncates to, in milliseconds.
use rediq.Prelude.{ℕ, ◌+◌, ◌*◌, ◌/◌, ◌%◌, ◌^◌, leb, min, Option, none, some, if◌then◌else◌}

-- `F` holds the floats.
pub data RetryStrategy (F : Type 0) : Type 0 where
  fixed_delay : ℕ → ℕ → RetryStrategy F
  exponential_backoff : ℕ → ℕ → ℕ → F → RetryStrategy F
  linear : ℕ → ℕ → RetryStrategy F

abbrev pub as_millis : ℕ → ℕ
as_millis d = d / 1_000_000

abbrev pub from_millis : ℕ → ℕ
from_millis n = n * 1_000_000

module _ {F : Type 0} where
  abbrev pub default_strategy : F → RetryStrategy F
  default_strategy two = exponential_backoff 3 1_000_000_000 60_000_000_000 two

  unfoldable pub max_retries : RetryStrategy F → ℕ
  max_retries (fixed_delay n _) = n
  max_retries (exponential_backoff n _ _ _) = n
  max_retries (linear n _) = n

module _ {F : Type 0} (scaled : ℕ → F → ℕ → ℕ) where
  -- The product of the linear strategy is taken in 64 bits.
  abbrev pub delay_of : RetryStrategy F → ℕ → ℕ
  delay_of (fixed_delay _ delay) n = delay
  delay_of (exponential_backoff _ initial most multiplier) n =
      min (from_millis (scaled (as_millis initial) multiplier n)) most
  delay_of (linear _ step) n = from_millis (as_millis step % 2 ^ 64 * (n + 1) % 2 ^ 64)

  unfoldable pub delay_for : RetryStrategy F → ℕ → Option ℕ
  unfolding max_retries
  delay_for s n = if leb (max_retries s) n then none else some (delay_of s n)

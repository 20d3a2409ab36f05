-- ===== src/Config.antt =====
-- config.rs (rediq/src/config.rs): the limits of the whole process. The global is an argument of the
-- code that reads it.
pub mod Limits
use rediq.Prelude.{ℕ, ◌*◌, ℤ, pos, ltb_ℤ, ◌||◌, if◌then◌else◌}
use rediq.Errors.{Result, ok, err, validation}

pub record RediqConfig : Type 0 where
  pub max_payload_size : ℕ
  pub task_ttl : ℕ
  pub priority_range : ℤ × ℤ
  pub default_max_retry : ℕ
  pub default_timeout_secs : ℕ

abbrev pub default_config : RediqConfig
default_config = record {
  max_payload_size = 512 * 1024;
  task_ttl = 86400;
  priority_range = (pos 0, pos 100);
  default_max_retry = 3;
  default_timeout_secs = 30;
}

unfoldable pub with_max_payload_size : RediqConfig → ℕ → RediqConfig
with_max_payload_size c size = record c { max_payload_size = size }

unfoldable pub with_task_ttl : RediqConfig → ℕ → RediqConfig
with_task_ttl c ttl = record c { task_ttl = ttl }

unfoldable pub with_priority_range : RediqConfig → ℤ → ℤ → RediqConfig
with_priority_range c low high = record c { priority_range = (low, high) }

unfoldable pub with_default_max_retry : RediqConfig → ℕ → RediqConfig
with_default_max_retry c n = record c { default_max_retry = n }

unfoldable pub with_default_timeout : RediqConfig → ℕ → RediqConfig
with_default_timeout c secs = record c { default_timeout_secs = secs }

-- The error is a message there; here it is the validation error that the callers make of it.
unfoldable pub validate_priority : RediqConfig → ℤ → Result (Unit {0})
validate_priority c p =
    if ltb_ℤ p c.priority_range.0 || ltb_ℤ c.priority_range.1 p
    then err (validation "Priority must be between {} and {}, got {}")
    else ok tt

-- `i32::clamp`: below the range the low end, above it the high end.
unfoldable pub clamp : ℤ → ℤ → ℤ → ℤ
clamp low high p = if ltb_ℤ p low then low else if ltb_ℤ high p then high else p

unfoldable pub clamp_priority : RediqConfig → ℤ → ℤ
unfolding clamp
clamp_priority c p = clamp c.priority_range.0 c.priority_range.1 p

-- ===== src/Progress.antt =====
-- progress/mod.rs (rediq/src/progress/mod.rs): reporting the progress of a task. The context's two
-- shared cells are a state that each report returns; clocks are arguments.
pub mod Reporting
use rediq.Prelude.{
  ℕ, ◌+◌, ◌-◌, ◌^◌, min, ltb, String, Bool, ◌&&◌, Option, none, some, List, [], ◌∷◌, ◌++◌,
  if◌then◌else◌,
}
use rediq.Errors.{validation}
use rediq.Keys.{Family, key}
use rediq.Redis.{Value, text, number, Prog, pure, fail, ◌>>=◌, ◌>>◌}
use rediq.Redis.Client.{hset, expire}

pub record ProgressConfig : Type 0 where
  pub throttle_ms : ℕ
  pub ttl_secs : ℕ

abbrev pub default_progress : ProgressConfig
default_progress = record { throttle_ms = 500; ttl_secs = 3600 }

-- `last_update` in milliseconds of the monotonic clock.
pub record ProgressContext : Type 0 where
  pub task_id : String
  pub config : ProgressConfig
  pub last_update : ℕ
  pub current_value : ℕ

-- A new context counts as updated a second ago.
abbrev pub new_progress : String → ProgressConfig → ℕ → ProgressContext
new_progress id config instant = record {
  task_id = id;
  config = config;
  last_update = instant - 1000;
  current_value = 0;
}

module _ {B : Type 0} where
  abbrev pub message_field : Option String → List (String × Value B)
  message_field none = []
  message_field (some m) = ("message", text m) ∷ []

  -- The writes of a report that is not refused and not throttled.
  abbrev pub write_progress : ProgressContext → ℕ → Option String → ℕ → ℕ → Prog B ProgressContext
  write_progress ctx current message instant now = do
    hset (key Family.progress ctx.task_id)
        (("current", number current) ∷ ("updated_at", number now) ∷ message_field message)
    expire (key Family.progress ctx.task_id) ctx.config.ttl_secs
    pure (record ctx { last_update = instant; current_value = current })

  -- `instant` is the monotonic clock in milliseconds, `now` the time in seconds.
  unfoldable pub report_with_message :
      ProgressContext → ℕ → Option String → ℕ → ℕ → Prog B ProgressContext
  report_with_message ctx current message instant now =
      if ltb 100 current
      then fail (validation "Progress must be 0-100, got {}")
      else if ltb (instant - ctx.last_update) ctx.config.throttle_ms && ltb current 100
      then pure ctx
      else write_progress ctx current message instant now

  unfoldable pub report : ProgressContext → ℕ → ℕ → ℕ → Prog B ProgressContext
  unfolding report_with_message
  report ctx current instant now = report_with_message ctx current none instant now

  unfoldable pub increment : ProgressContext → ℕ → ℕ → ℕ → Prog B ProgressContext
  unfolding report
  increment ctx delta instant now =
      report ctx (min (min (ctx.current_value + delta) (2 ^ 32 - 1)) 100) instant now

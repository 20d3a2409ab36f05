-- ===== src/Task.antt =====
-- task/mod.rs (rediq/src/task/mod.rs): tasks, their validation and their retry delays.
pub mod Builder
pub mod Validation
pub mod Backoff
pub mod Ongoing
use Prim.Native.Char.{code}
use Prim.Native.String.{◌++◌}
use rediq.Prelude.{
  ℕ, ◌+◌, ◌*◌, ◌/◌, ◌-◌, ◌^◌, min, ℤ, pos, ltb_ℤ, ltb, ◌==◌, String, str_eq, Bool, true, false, not,
  ◌&&◌, ◌||◌, Option, none, some, List, length, if◌then◌else◌,
}
use rediq.Errors.{Result, ok, err, validation}
use rediq.Config.{RediqConfig}

pub data TaskStatus : Type 0 where
  pending active processed failed retry dead : TaskStatus

unfoldable pub status_text : TaskStatus → String
status_text TaskStatus.pending = "pending"
status_text TaskStatus.active = "active"
status_text TaskStatus.processed = "processed"
status_text TaskStatus.failed = "failed"
status_text TaskStatus.retry = "retry"
status_text TaskStatus.dead = "dead"

-- A duration is its nanoseconds.
abbrev pub from_secs : ℕ → ℕ
from_secs n = n * 1_000_000_000

abbrev pub as_secs : ℕ → ℕ
as_secs d = d / 1_000_000_000

pub record TaskOptions : Type 0 where
  pub max_retry : ℕ
  pub timeout : ℕ
  pub delay : Option ℕ
  pub cron : Option String
  pub unique_key : Option String
  pub priority : ℤ
  pub depends_on : Option (List String)
  pub group : Option String

abbrev pub default_options : TaskOptions
default_options = record {
  max_retry = 3;
  timeout = from_secs 30;
  delay = none;
  cron = none;
  unique_key = none;
  priority = pos 50;
  depends_on = none;
  group = none;
}

-- Times are seconds since 1970.
pub record Task : Type 0 where
  pub id : String
  pub task_type : String
  pub queue : String
  pub payload : List ℕ
  pub options : TaskOptions
  pub status : TaskStatus
  pub created_at : ℕ
  pub enqueued_at : Option ℕ
  pub processed_at : Option ℕ
  pub retry_cnt : ℕ
  pub last_error : Option String

-- `cron.contains(' ')`
unfoldable pub has_space : String → Bool
has_space String.[] = false
has_space (String.◌∷◌ c s) = code c == 32 || has_space s

abbrev pub max_delay_secs : ℕ
max_delay_secs = 365 * 24 * 60 * 60

abbrev pub delay_too_long : Option ℕ → Bool
delay_too_long none = false
delay_too_long (some d) = ltb max_delay_secs (as_secs d)

abbrev pub cron_malformed : Option String → Bool
cron_malformed none = false
cron_malformed (some c) = not (has_space c) && not (str_eq c "@always")

-- A message is kept as its template.
unfoldable pub validate : RediqConfig → Task → Result (Unit {0})
validate cfg t =
    if str_eq t.task_type ""
    then err (validation "task_type cannot be empty")
    else if str_eq t.queue ""
    then err (validation "queue cannot be empty")
    else if length t.payload == 0
    then err (validation "payload cannot be empty")
    else if ltb cfg.max_payload_size (length t.payload)
    then err (validation "payload exceeds {}KB limit (got {}B)")
    else if ltb_ℤ t.options.priority cfg.priority_range.0
        || ltb_ℤ cfg.priority_range.1 t.options.priority
    then err (validation "priority must be between {} and {}, got {}")
    else if t.options.timeout == 0
    then err (validation "timeout must be greater than 0")
    else if delay_too_long t.options.delay
    then err (validation "delay cannot exceed {} seconds (1 year), got {} seconds")
    else if cron_malformed t.options.cron
    then err (validation "invalid cron expression: {}")
    else ok tt

unfoldable pub description : Task → String
unfolding status_text
description t =
    "Task[type="
    ++ t.task_type
    ++ ", queue="
    ++ t.queue
    ++ ", id="
    ++ t.id
    ++ ", status="
    ++ status_text t.status
    ++ "]"

unfoldable pub can_retry : Task → Bool
can_retry t = ltb t.retry_cnt t.options.max_retry

-- `u32::saturating_add`
abbrev pub saturating_add_u32 : ℕ → ℕ → ℕ
saturating_add_u32 a b = min (a + b) (2 ^ 32 - 1)

-- The delay as a duration.
unfoldable pub retry_delay : Task → Option ℕ
unfolding can_retry
retry_delay t =
    if not (can_retry t)
    then none
    else some (from_secs (2 ^ min (saturating_add_u32 t.retry_cnt 1) 6))

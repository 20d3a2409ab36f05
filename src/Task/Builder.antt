-- ===== src/Task/Builder.antt =====
-- task/builder.rs (rediq/src/task/builder.rs): the builder of tasks. The identifier that Uuid makes,
-- the time and the global configuration are arguments of `build`.
use rediq.Prelude.{
  ℕ, ℤ, pos, String, str_eq, none, some, List, [], length, ltb, ◌==◌, if◌then◌else◌,
}
use rediq.Errors.{Result, ok, err, validation}
use rediq.Config.{RediqConfig, clamp}
use rediq.Task.{Task, TaskOptions, TaskStatus, default_options, validate}

pub record TaskBuilder : Type 0 where
  pub task_type : String
  pub queue : String
  pub payload : List ℕ
  pub options : TaskOptions

abbrev pub new : String → TaskBuilder
new task_type = record {
  task_type = task_type;
  queue = "default";
  payload = [];
  options = default_options;
}

abbrev pub with_options : TaskBuilder → TaskOptions → TaskBuilder
with_options b o = record b { options = o }

abbrev pub set_queue : TaskBuilder → String → TaskBuilder
set_queue b q = record b { queue = q }

abbrev pub raw_payload : TaskBuilder → List ℕ → TaskBuilder
raw_payload b p = record b { payload = p }

abbrev pub max_retry : TaskBuilder → ℕ → TaskBuilder
max_retry b n = with_options b (record (b.options) { max_retry = n })

abbrev pub timeout : TaskBuilder → ℕ → TaskBuilder
timeout b d = with_options b (record (b.options) { timeout = d })

abbrev pub delay : TaskBuilder → ℕ → TaskBuilder
delay b d = with_options b (record (b.options) { delay = some d })

abbrev pub cron : TaskBuilder → String → TaskBuilder
cron b c = with_options b (record (b.options) { cron = some c })

abbrev pub unique_key : TaskBuilder → String → TaskBuilder
unique_key b k = with_options b (record (b.options) { unique_key = some k })

abbrev pub priority : TaskBuilder → ℤ → TaskBuilder
unfolding clamp
priority b p = with_options b (record (b.options) { priority = clamp (pos 0) (pos 100) p })

abbrev pub depends_on : TaskBuilder → List String → TaskBuilder
depends_on b deps = with_options b (record (b.options) { depends_on = some deps })

abbrev pub group : TaskBuilder → String → TaskBuilder
group b g = with_options b (record (b.options) { group = some g })

abbrev pub built : TaskBuilder → String → ℕ → Task
built b id now = record {
  id = id;
  task_type = b.task_type;
  queue = b.queue;
  payload = b.payload;
  options = b.options;
  status = TaskStatus.pending;
  created_at = now;
  enqueued_at = none;
  processed_at = none;
  retry_cnt = 0;
  last_error = none;
}

abbrev pub checked : Task → Result (Unit {0}) → Result Task
checked t (ok _) = ok t
checked t (err e) = err e

unfoldable pub build : RediqConfig → TaskBuilder → String → ℕ → Result Task
build cfg b id now =
    if str_eq b.task_type ""
    then err (validation "task_type cannot be empty")
    else if length b.payload == 0
    then err (validation "payload cannot be empty")
    else if ltb cfg.max_payload_size (length b.payload)
    then err (validation "payload exceeds {}KB limit (got {}B)")
    else checked (built b id now) (validate cfg (built b id now))

-- ===== src/Scheduler.antt =====
-- The `Scheduler` of server/scheduler.rs (rediq/src/server/scheduler.rs).
pub mod Moving
pub mod Firing
pub mod Aggregation
pub mod Running
use rediq.Prelude.{ℕ, ◌+◌, pos, String, Option, none, some, List, [], ◌∷◌}
use rediq.Errors.{Result, ok, err, serialization, validation}
use rediq.Keys.{Family, key}
use rediq.Redis.{Value, bytes, Prog, done, pure, fail, attempt, ◌>>=◌, ◌>>◌}
use rediq.Redis.Client.{move_expired_tasks_lua, zrangebyscore, get, set, zrem, zadd, rpush}
use rediq.Config.{RediqConfig}
use rediq.Task.{Task}
use rediq.Task.Builder
use rediq.Task.Builder.{TaskBuilder, build}
use rediq.Codec.{Codec}
use rediq.Client.{Cron}

module _ {B : Type 0} where
  -- A script that fails is logged, and the next queue is served.
  abbrev pub move_due : Family → ℕ → List String → Prog B (Unit {0})
  move_due family now [] = pure tt
  move_due family now (queue ∷ queues) = do
    attempt (move_expired_tasks_lua (key family queue) (key Family.queue queue) (pos now) 100)
    move_due family now queues

  unfoldable pub check_retry_tasks : List String → ℕ → Prog B (Unit {0})
  check_retry_tasks queues now = move_due Family.retry now queues

  unfoldable pub check_delayed_tasks : List String → ℕ → Prog B (Unit {0})
  check_delayed_tasks queues now = move_due Family.delayed now queues

-- The builder calls of `check_cron_tasks`.
abbrev pub instance_of : Task → String → TaskBuilder
instance_of t queue =
    Builder.raw_payload
      (Builder.priority
        (Builder.timeout
          (Builder.max_retry (Builder.set_queue (Builder.new t.task_type) queue)
            t.options.max_retry)
          t.options.timeout)
        t.options.priority)
      t.payload

-- `fresh` is the identifier that a template's instance gets.
module _ {B : Type 0} (codec : Codec B) (cfg : RediqConfig) (cron : Cron)
    (fresh : String → String) where
  abbrev pub reschedule : String → String → Option ℕ → Prog B (Unit {0})
  reschedule queue id none = pure tt
  reschedule queue id (some next) = zadd (key Family.cron_queue queue) id (pos next)

  -- `calculate_next_cron_time`; the crate's iterator starts at the present time.
  unfoldable pub calculate_next_cron_time : String → ℕ → Option ℕ
  calculate_next_cron_time line now = elim (cron.parse line) [
    | none ↦ none
    | some upcoming ↦ upcoming now
  ]

  abbrev pub start : String → String → String → ℕ → Result Task → Prog B (Unit {0})
  start queue id line now (err _) = zadd (key Family.cron_queue queue) id (pos (now + 60))
  start queue id line now (ok t) = do
    packed ← done (codec.to_vec t)
    set (key Family.task t.id) (bytes packed)
    rpush (key Family.queue queue) t.id
    reschedule queue id (calculate_next_cron_time line now)

  abbrev pub fire_line : String → String → Task → ℕ → Option String → Prog B (Unit {0})
  fire_line queue id t now none = fail (validation "Cron task missing cron expression")
  fire_line queue id t now (some line) = do
    zrem (key Family.cron_queue queue) id
    start queue id line now (build cfg (instance_of t queue) (fresh id) now)

  abbrev pub fire_bytes : String → String → ℕ → Option B → Prog B (Unit {0})
  fire_bytes queue id now none = fail (serialization "Task data is not bytes")
  fire_bytes queue id now (some b) = do
    t ← done (codec.from_slice b)
    fire_line queue id t now t.options.cron

  abbrev pub fire_found : String → String → ℕ → Option (Value B) → Prog B (Unit {0})
  fire_found queue id now none = pure tt
  fire_found queue id now (some v) = fire_bytes queue id now (codec.as_bytes v)

  abbrev pub fire_each : String → ℕ → List String → Prog B (Unit {0})
  fire_each queue now [] = pure tt
  fire_each queue now (id ∷ ids) = do
    found ← get (key Family.task id)
    fire_found queue id now found
    fire_each queue now ids

  abbrev pub fire_queues : ℕ → List String → Prog B (Unit {0})
  fire_queues now [] = pure tt
  fire_queues now (queue ∷ queues) = do
    ids ← zrangebyscore (key Family.cron_queue queue) (pos 0) (pos now)
    fire_each queue now ids
    fire_queues now queues

  unfoldable pub check_cron_tasks : List String → ℕ → Prog B (Unit {0})
  check_cron_tasks queues now = fire_queues now queues

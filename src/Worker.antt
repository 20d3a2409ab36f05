-- ===== src/Worker.antt =====
-- The `Worker` of server/worker.rs (rediq/src/server/worker.rs): dequeueing, processing and
-- acknowledging tasks. The clock, the handler's and the middleware's results are arguments.
pub mod Membership
pub mod Dequeue
pub mod Settling
pub mod Hooks
pub mod Fallback
pub mod Acknowledging
pub mod Attempts
pub mod Priority
pub mod Urgent
pub mod Looping
pub mod Turns
use rediq.Prelude.{
  ℕ, zero, suc, ◌+◌, ◌%◌, ◌^◌, ◌==◌, pos, String, str_eq, Bool, true, false, Option, none, some,
  List, [], ◌∷◌, length, get_elem?, if◌then◌else◌,
}
use rediq.Errors.{
  Error, Result, ok, err, queue_paused, task_not_found, serialization, validation, timeout, display,
}
use rediq.Keys.{Family, key}
use rediq.Redis.{Value, text, number, bytes, Prog, done, pure, fail, attempt, ◌>>=◌, ◌>>◌}
use rediq.Redis.Client.{
  exists, blpop, lpush, lrem, hget, hset, hincrby, expire, zadd, get, set, pdequeue_lua,
}
use rediq.Config.{RediqConfig}
use rediq.Task.{Task, TaskStatus, can_retry, retry_delay, as_secs}
use rediq.Codec.{Codec, WorkerMetadata}
use rediq.Dependencies.{check_dependents, fail_dependents}
use rediq.Progress.{ProgressContext, default_progress, new_progress, report}

-- `next_queue`: the counter before the call, modulo the number of queues; the counter wraps.
unfoldable pub next_queue : List String → ℕ → Option String × ℕ
next_queue queues index = (get_elem? queues (index % 2 ^ 64 % length queues), (index + 1) % 2 ^ 64)

module _ {B : Type 0} (codec : Codec B) where
  abbrev pub activated : Task → ℕ → Task
  activated t now = record t { status = TaskStatus.active; processed_at = some now }

  abbrev pub load_bytes : String → ℕ → Option B → Prog B Task
  load_bytes id now none = fail (serialization "Task data is not bytes")
  load_bytes id now (some b) = do
    t ← done (codec.from_slice b)
    hset (key Family.task id) (("status", number now) ∷ [])
    pure (activated t now)

  abbrev pub load_found : String → ℕ → Option (Value B) → Prog B Task
  load_found id now none = fail (task_not_found id)
  load_found id now (some v) = load_bytes id now (codec.as_bytes v)

  unfoldable pub load_task : String → ℕ → Prog B Task
  load_task id now = do found ← hget (key Family.task id) "data"; load_found id now found

  -- `.map(Some)`
  abbrev pub loaded : String → ℕ → Prog B (Option Task)
  loaded id now = do t ← load_task id now; pure (some t)

  abbrev pub dequeue_popped : String → ℕ → Option String → Prog B (Option Task)
  dequeue_popped queue now none = pure none
  dequeue_popped queue now (some id) = do lpush (key Family.active queue) id; loaded id now

  unfoldable pub dequeue_task : ℕ → String → ℕ → Prog B (Option Task)
  dequeue_task dequeue_timeout queue now = do
    paused ← exists (key Family.pause queue)
    if paused then fail (queue_paused queue) else do
      popped ← blpop (key Family.queue queue) dequeue_timeout
      dequeue_popped queue now popped

  unfoldable pub dequeue_task_priority : RediqConfig → String → ℕ → Prog B (Option Task)
  dequeue_task_priority cfg queue now = do
    id ←
        pdequeue_lua (key Family.priority_queue queue) (key Family.active queue)
          (key Family.pause queue) now cfg.task_ttl
    if str_eq id "" then pure none else loaded id now

  abbrev pub fall_back : ℕ → String → ℕ → Result (Option Task) → Prog B (Option Task)
  fall_back dequeue_timeout queue now (ok (some t)) = pure (some t)
  fall_back dequeue_timeout queue now (ok none) = dequeue_task dequeue_timeout queue now
  fall_back dequeue_timeout queue now (err (queue_paused _)) = fail (queue_paused queue)
  fall_back dequeue_timeout queue now (err _) = dequeue_task dequeue_timeout queue now

  unfoldable pub dequeue_task_any : RediqConfig → ℕ → String → ℕ → Prog B (Option Task)
  dequeue_task_any cfg dequeue_timeout queue now = do
    first ← attempt (dequeue_task_priority cfg queue now)
    fall_back dequeue_timeout queue now first

-- Acknowledging.
module _ {B : Type 0} (codec : Codec B) (worker_id : String) where
  abbrev pub counted : WorkerMetadata → ℕ → WorkerMetadata
  counted m now = record m { processed_total = m.processed_total + 1; last_heartbeat = now }

  abbrev pub count_bytes : ℕ → Option B → Prog B (Unit {0})
  count_bytes now none = fail (serialization "Worker data is not bytes")
  count_bytes now (some b) = do
    m ← done (codec.worker_from_slice b)
    packed ← done (codec.worker_to_vec (counted m now))
    set (key Family.meta_worker worker_id) (bytes packed)

  abbrev pub count_in : ℕ → Option (Value B) → Prog B (Unit {0})
  count_in now none = fail (validation "Worker metadata not found")
  count_in now (some v) = count_bytes now (codec.as_bytes v)

  unfoldable pub increment_processed : ℕ → Prog B (Unit {0})
  increment_processed now = do found ← get (key Family.meta_worker worker_id); count_in now found

  -- The steps of `ack_task` for a processed task only.
  abbrev pub settle_processed : Task → ℕ → TaskStatus → Prog B (Unit {0})
  settle_processed t now TaskStatus.processed = do
    increment_processed now
    attempt (hincrby (key Family.stats t.queue) "processed" 1)
    attempt (check_dependents codec t.id)
    pure tt
  settle_processed t now _ = pure tt

  abbrev pub acknowledged : Task → TaskStatus → Option String → Task
  acknowledged t status e = record t { status = status; last_error = e }

  unfoldable pub ack_task : RediqConfig → Task → TaskStatus → Option String → ℕ → Prog B (Unit {0})
  ack_task cfg t status e now = do
    lrem (key Family.active t.queue) t.id
    packed ← done (codec.to_vec (acknowledged t status e))
    hset (key Family.task t.id) (("data", bytes packed) ∷ ("queue", text t.queue) ∷ [])
    expire (key Family.task t.id) cfg.task_ttl
    settle_processed t now status

  abbrev pub retry_at : Task → ℕ → Option ℕ → Prog B (Unit {0})
  retry_at t now none = fail (validation "No retry delay available")
  retry_at t now (some delay) = zadd (key Family.retry t.queue) t.id (pos (now + as_secs delay))

  unfoldable pub schedule_retry : Task → ℕ → Prog B (Unit {0})
  schedule_retry t now = retry_at t now (retry_delay t)

-- What a handler that does not panic did within the timeout of the task. Worker/Looping has panics.
pub data Handled : Type 0 where
  finished : Result (Unit {0}) → Handled
  timed_out : Handled

abbrev pub process_result : Handled → Result (Unit {0})
process_result (finished r) = r
process_result timed_out = err (timeout "Task {} timed out after {:?}")

-- The task after one more failure; the counter is a u32.
abbrev pub failed_once : Task → Error → Task
failed_once t e = record t { last_error = some (display e); retry_cnt = (t.retry_cnt + 1) % 2 ^ 32 }

module _ {B : Type 0} (codec : Codec B) (cfg : RediqConfig) (worker_id : String) where
  abbrev pub retry_or_bury : Task → Error → ℕ → Bool → Prog B (Unit {0})
  retry_or_bury t e now true = do
    ack_task codec worker_id cfg t TaskStatus.retry (some (display e)) now
    schedule_retry codec worker_id t now
  retry_or_bury t e now false = do
    ack_task codec worker_id cfg t TaskStatus.dead (some (display e)) now
    attempt (fail_dependents codec t.id t.queue)
    pure tt

  abbrev pub settle : ProgressContext → Task → ℕ → ℕ → Result (Unit {0}) → Prog B (Unit {0})
  settle ctx t instant now (ok r) = do
    attempt (report ctx 100 instant now)
    ack_task codec worker_id cfg t TaskStatus.processed none now
    pure r
  settle ctx t instant now (err e) = do
    retry_or_bury (failed_once t e) e now (can_retry (failed_once t e))
    fail e

  -- `before` is the result of the middleware's hooks; those behind the handler are ignored.
  unfoldable pub process_task : Task → Result (Unit {0}) → Handled → ℕ → ℕ → Prog B (Unit {0})
  process_task t before handled instant now = do
    let ctx = new_progress t.id default_progress instant
    started ← attempt (report ctx 0 instant now)
    done before
    settle ctx t instant now (process_result handled)

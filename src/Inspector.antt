-- ===== src/Inspector.antt =====
-- The `Inspector` of client/mod.rs (rediq/src/client/mod.rs): what a client can look up, and stopping
-- a worker.
pub mod Looking
pub mod Reading
pub mod Stopping
use rediq.Prelude.{
  ℕ, ◌-◌, ◌^◌, min, ◌==◌, ℤ, pos, String, str_eq, Bool, true, false, Option, none, some, List, [],
  ◌∷◌, length, if◌then◌else◌,
}
use rediq.Errors.{Result, ok, err, task_not_found, serialization}
use rediq.Keys.{Family, key}
use rediq.Redis.{Value, Prog, done, pure, fail, attempt, ◌>>=◌, ◌>>◌}
use rediq.Redis.Client.{hget, get, llen, lrange, zrangebyscore, smembers, exists, del, hgetall}
use rediq.Task.{Task, TaskStatus}
use rediq.Codec.{Codec, WorkerMetadata, as_string, unsigned_in, signed_in}

pub record TaskProgress : Type 0 where
  pub current : ℕ
  pub message : Option String
  pub updated_at : ℤ

pub record TaskInfo : Type 0 where
  pub id : String
  pub task_type : String
  pub queue : String
  pub status : TaskStatus
  pub retry_cnt : ℕ
  pub last_error : Option String
  pub created_at : ℕ
  pub enqueued_at : Option ℕ
  pub processed_at : Option ℕ
  pub progress : Option TaskProgress

pub record QueueStats : Type 0 where
  pub name : String
  pub pending : ℕ
  pub active : ℕ
  pub delayed : ℕ
  pub retried : ℕ
  pub dead : ℕ
  pub completed : ℕ

pub record WorkerInfo : Type 0 where
  pub id : String
  pub server_name : String
  pub queues : List String
  pub started_at : ℕ
  pub last_heartbeat : ℕ
  pub processed_total : ℕ
  pub status : String

abbrev pub or_no : {A : Type 0} → A → Option A → A
or_no a none = a
or_no a (some b) = b

abbrev pub no_progress : TaskProgress
no_progress = record { current = 0; message = none; updated_at = pos 0 }

-- `.ok().flatten()`
abbrev pub flattened : {A : Type 0} → Result (Option A) → Option A
flattened (ok o) = o
flattened (err _) = none

abbrev pub task_info : Task → Option TaskProgress → TaskInfo
task_info t progress = record {
  id = t.id;
  task_type = t.task_type;
  queue = t.queue;
  status = t.status;
  retry_cnt = t.retry_cnt;
  last_error = t.last_error;
  created_at = t.created_at;
  enqueued_at = t.enqueued_at;
  processed_at = t.processed_at;
  progress = progress;
}

abbrev pub worker_info : WorkerMetadata → WorkerInfo
worker_info m = record {
  id = m.id;
  server_name = m.server_name;
  queues = m.queues;
  started_at = m.started_at;
  last_heartbeat = m.last_heartbeat;
  processed_total = m.processed_total;
  status = m.status;
}

abbrev pub kept : {A : Type 0} → Result A → List A → List A
kept (ok a) l = a ∷ l
kept (err _) l = l

module _ {B : Type 0} (codec : Codec B) where
  -- One field of the loop in `get_task_progress`.
  abbrev pub read_field : String → Value B → TaskProgress → TaskProgress
  read_field f v p =
      if str_eq f "current"
      then record p { current = or_no 0 (unsigned_in codec (2 ^ 32) v) }
      else if str_eq f "message"
      then record p { message = as_string codec v }
      else if str_eq f "updated_at"
      then record p { updated_at = or_no (pos 0) (signed_in codec v) }
      else p

  abbrev pub read_fields : List (String × Value B) → TaskProgress → TaskProgress
  read_fields [] p = p
  read_fields ((f, v) ∷ fields) p = read_fields fields (read_field f v p)

  abbrev pub progress_in : Result (List (String × Value B)) → Option TaskProgress
  progress_in (ok []) = none
  progress_in (ok (f ∷ fields)) = some (read_fields (f ∷ fields) no_progress)
  progress_in (err _) = none

  unfoldable pub get_task_progress : String → Prog B (Option TaskProgress)
  get_task_progress id = do
    found ← attempt (hgetall (key Family.progress id))
    pure (progress_in found)

  abbrev pub task_bytes : String → Option B → Prog B TaskInfo
  task_bytes id none = fail (serialization "Task data is not bytes")
  task_bytes id (some b) = do
    t ← done (codec.from_slice b)
    progress ← attempt (get_task_progress id)
    pure (task_info t (flattened progress))

  abbrev pub task_found : String → Option (Value B) → Prog B TaskInfo
  task_found id none = fail (task_not_found id)
  task_found id (some v) = task_bytes id (codec.as_bytes v)

  unfoldable pub get_task : String → Prog B TaskInfo
  get_task id = do found ← hget (key Family.task id) "data"; task_found id found

  abbrev pub completed_in : Result (Option (Value B)) → ℕ
  completed_in (ok (some v)) = or_no 0 (unsigned_in codec (2 ^ 64) v)
  completed_in (ok none) = 0
  completed_in (err _) = 0

  unfoldable pub queue_stats : String → Prog B QueueStats
  queue_stats queue = do
    pending ← llen (key Family.queue queue)
    active ← llen (key Family.active queue)
    delayed ← zrangebyscore (key Family.delayed queue) (pos 0) (pos (2 ^ 63 - 1))
    retry ← zrangebyscore (key Family.retry queue) (pos 0) (pos (2 ^ 63 - 1))
    dead ← llen (key Family.dead queue)
    processed ← attempt (hget (key Family.stats queue) "processed")
    pure (record {
      name = queue;
      pending = pending;
      active = active;
      delayed = length delayed;
      retried = length retry;
      dead = dead;
      completed = completed_in processed;
    })

  abbrev pub get_each : List String → Prog B (List TaskInfo)
  get_each [] = pure []
  get_each (id ∷ ids) = do info ← attempt (get_task id); rest ← get_each ids; pure (kept info rest)

  unfoldable pub list_tasks : String → ℕ → Prog B (List TaskInfo)
  list_tasks queue limit = do
    queue_len ← llen (key Family.queue queue)
    if min queue_len limit == 0 then pure [] else do
      ids ← lrange (key Family.queue queue) 0 (pos (min queue_len limit - 1))
      get_each ids

  abbrev pub worker_bytes : Option B → Prog B WorkerInfo
  worker_bytes none = fail (serialization "Worker data is not bytes")
  worker_bytes (some b) = do m ← done (codec.worker_from_slice b); pure (worker_info m)

  abbrev pub worker_found : Option (Value B) → Prog B WorkerInfo
  worker_found none = fail (task_not_found "Worker {} not found")
  worker_found (some v) = worker_bytes (codec.as_bytes v)

  unfoldable pub get_worker : String → Prog B WorkerInfo
  get_worker worker_id = do found ← get (key Family.meta_worker worker_id); worker_found found

  abbrev pub get_each_worker : List String → Prog B (List WorkerInfo)
  get_each_worker [] = pure []
  get_each_worker (id ∷ ids) = do
    info ← attempt (get_worker id)
    rest ← get_each_worker ids
    pure (kept info rest)

  unfoldable pub list_workers : Prog B (List WorkerInfo)
  list_workers = do members ← smembers (key Family.meta_workers ""); get_each_worker members

module _ {B : Type 0} where
  unfoldable pub list_queues : Prog B (List String)
  list_queues = smembers (key Family.meta_queues "")

  unfoldable pub stop_worker : String → Prog B Bool
  stop_worker worker_id = do
    there ← exists (key Family.meta_heartbeat worker_id)
    if there then (do del (key Family.meta_heartbeat worker_id ∷ []); pure true) else pure false

-- ===== src/Client/Queues.antt =====
-- The queue operations of the `Client` (rediq/src/client/builder.rs): pausing, flushing, cancelling
-- and retrying.
use rediq.Prelude.{
  ℕ, ltb, negsuc, String, Bool, true, false, Option, none, some, List, [], ◌∷◌, contains,
  if◌then◌else◌,
}
use rediq.Errors.{validation, serialization}
use rediq.Keys.{Family, key}
use rediq.Redis.{Value, text, bytes, Prog, done, pure, fail, ◌>>=◌, ◌>>◌}
use rediq.Redis.Client.{set, del, exists, llen, lrange, lrem, zrem, srem, hget, hset, expire, rpush}
use rediq.Config.{RediqConfig}
use rediq.Task.{Task, TaskStatus}
use rediq.Codec.{Codec}

-- `queue_checks`: the key, the name of the state, and whether it is a sorted set.
abbrev pub queue_checks : List (Family × String × Bool)
queue_checks =
    (Family.queue, "pending", false)
    ∷ (Family.active, "active", false)
    ∷ (Family.delayed, "delayed", true)
    ∷ (Family.retry, "retry", true)
    ∷ (Family.dead, "dead", false)
    ∷ (Family.priority_queue, "priority", true)
    ∷ []

module _ {B : Type 0} where
  unfoldable pub pause_queue : String → Prog B (Unit {0})
  pause_queue queue = set (key Family.pause queue) (text "true")

  unfoldable pub resume_queue : String → Prog B (Unit {0})
  resume_queue queue = do del (key Family.pause queue ∷ []); pure tt

  unfoldable pub flush_queue : String → Prog B ℕ
  flush_queue queue = do
    count ← llen (key Family.queue queue)
    del (key Family.queue queue ∷ [])
    pure count

  abbrev pub remove_from : String → String → Family → Bool → Prog B Bool
  remove_from id queue family true = zrem (key family queue) id
  remove_from id queue family false = do n ← lrem (key family queue) id; pure (ltb 0 n)

  abbrev pub forget : String → Prog B (Unit {0})
  forget id = do
    del (key Family.task id ∷ [])
    del (key Family.pending_deps id ∷ [])
    del (key Family.task_deps id ∷ [])
    del (key Family.progress id ∷ [])
    pure tt

  abbrev pub cancel_from : String → String → List (Family × String × Bool) → Prog B (Option String)
  cancel_from id queue [] = pure none
  cancel_from id queue ((family, status, sorted) ∷ rest) =
      let others = cancel_from id queue rest in
      do
        there ← exists (key family queue)
        if there
            then (do
              removed ← remove_from id queue family sorted
              if removed then (do forget id; pure (some status)) else others)
            else others

  unfoldable pub cancel_task : String → String → Prog B (Option String)
  cancel_task id queue = cancel_from id queue queue_checks

  abbrev pub release : String → Option String → Option String → Prog B (Option String)
  release queue (some status) (some unique) = do
    srem (key Family.dedup queue) unique
    pure (some status)
  release queue result _ = pure result

  unfoldable pub cancel_task_with_unique : String → String → Option String → Prog B (Option String)
  cancel_task_with_unique id queue unique = do
    result ← cancel_task id queue
    release queue result unique

-- `retry_task`.
abbrev pub reset : Task → Task
reset t = record t {
  status = TaskStatus.pending;
  retry_cnt = 0;
  last_error = none;
  processed_at = none;
}

module _ {B : Type 0} (codec : Codec B) where
  abbrev pub unpack_found : Option B → Prog B (Option Task)
  unpack_found none = fail (serialization "Task data is not bytes")
  unpack_found (some b) = do t ← done (codec.from_slice b); pure (some t)

  abbrev pub read_found : Option (Value B) → Prog B (Option Task)
  read_found none = pure none
  read_found (some v) = unpack_found (codec.as_bytes v)

module _ {B : Type 0} (codec : Codec B) (cfg : RediqConfig) where
  abbrev pub requeue : String → String → Option Task → Prog B Bool
  requeue id queue none = fail (validation "Failed to load task data")
  requeue id queue (some t) = do
    packed ← done (codec.to_vec (reset t))
    hset (key Family.task id) (("data", bytes packed) ∷ ("queue", bytes (codec.utf8 queue)) ∷ [])
    expire (key Family.task id) cfg.task_ttl
    lrem (key Family.dead queue) id
    rpush (key Family.queue queue) id
    pure true

  abbrev pub retry_found : String → String → Bool → Prog B Bool
  retry_found id queue false = pure false
  retry_found id queue true = do
    found ← hget (key Family.task id) "data"
    t ← read_found codec found
    requeue id queue t

  unfoldable pub retry_task : String → String → Prog B Bool
  retry_task id queue = do
    dead_tasks ← lrange (key Family.dead queue) 0 (negsuc 0)
    retry_found id queue (contains dead_tasks id)

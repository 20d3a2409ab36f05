-- ===== src/Inspector/Reading.antt =====
-- The inspector's look-ups change nothing (rediq/src/client/mod.rs).
use rediq.Prelude.{
  ℕ, ◌^◌, ◌-◌, ◌==◌, min, pos, String, Option, none, some, List, [], ◌∷◌, Bool-cases, inl, inr,
}
use rediq.Errors.{ok, err, serialization, task_not_found}
use rediq.Keys.{Family, key}
use rediq.Redis.{Value, done}
use rediq.Redis.Client.{hget, get, llen, lrange, zrangebyscore, smembers, hgetall}
use rediq.Redis.Reading.{
  Reads, done-Reads, bind-Reads, attempt-Reads, llen-Reads, hget-Reads, hgetall-Reads, lrange-Reads,
  zrangebyscore-Reads, smembers-Reads, get-Reads,
}
use rediq.Codec.{Codec}
use rediq.Inspector.{
  get_task_progress, task_bytes, task_found, get_task, queue_stats, get_each, list_tasks,
  worker_bytes, worker_found, get_worker, get_each_worker, list_workers, list_queues,
}

module _ {B : Type 0} (codec : Codec B) (order : List String → List String) where
  pub get_task_progress-Reads : (id : String) → Reads order (get_task_progress codec id)
  unfolding get_task_progress
  get_task_progress-Reads id =
      attempt-Reads order (hgetall (key Family.progress id)) _
        (hgetall-Reads order (key Family.progress id)) (λ r. done-Reads order (ok _))

  task_bytes-Reads : (id : String) (b : Option B) → Reads order (task_bytes codec id b)
  task_bytes-Reads id none = done-Reads order (err (serialization "Task data is not bytes"))
  task_bytes-Reads id (some b) =
      bind-Reads order (done (codec.from_slice b)) _ (done-Reads order (codec.from_slice b)) (λ t.
        attempt-Reads order (get_task_progress codec id) _ (get_task_progress-Reads id)
          (λ r. done-Reads order (ok _)))

  task_found-Reads : (id : String) (v : Option (Value B)) → Reads order (task_found codec id v)
  task_found-Reads id none = done-Reads order (err (task_not_found id))
  task_found-Reads id (some v) = task_bytes-Reads id (codec.as_bytes v)

  pub get_task-Reads : (id : String) → Reads order (get_task codec id)
  unfolding get_task
  get_task-Reads id =
      bind-Reads order (hget (key Family.task id) "data") (task_found codec id)
        (hget-Reads order (key Family.task id) "data") (task_found-Reads id)

  pub queue_stats-Reads : (queue : String) → Reads order (queue_stats codec queue)
  unfolding queue_stats
  queue_stats-Reads queue =
      bind-Reads order (llen (key Family.queue queue)) _ (llen-Reads order (key Family.queue queue))
        (λ pending.
          bind-Reads order (llen (key Family.active queue)) _
            (llen-Reads order (key Family.active queue))
            (λ active.
              bind-Reads order (zrangebyscore (key Family.delayed queue) (pos 0) (pos (2 ^ 63 - 1)))
                _ (zrangebyscore-Reads order (key Family.delayed queue) (pos 0) (pos (2 ^ 63 - 1)))
                (λ delayed.
                  bind-Reads order
                    (zrangebyscore (key Family.retry queue) (pos 0) (pos (2 ^ 63 - 1))) _
                    (zrangebyscore-Reads order (key Family.retry queue) (pos 0) (pos (2 ^ 63 - 1)))
                    (λ retry.
                      bind-Reads order (llen (key Family.dead queue)) _
                        (llen-Reads order (key Family.dead queue))
                        (λ dead.
                          attempt-Reads order (hget (key Family.stats queue) "processed") _
                            (hget-Reads order (key Family.stats queue) "processed")
                            (λ r. done-Reads order (ok _)))))))

  get_each-Reads : (ids : List String) → Reads order (get_each codec ids)
  get_each-Reads [] = done-Reads order (ok [])
  get_each-Reads (id ∷ ids) = attempt-Reads order (get_task codec id) _ (get_task-Reads id) (λ r.
      bind-Reads order (get_each codec ids) _ (get_each-Reads ids) (λ l. done-Reads order (ok _)))

  pub list_tasks-Reads : (queue : String) (limit : ℕ) → Reads order (list_tasks codec queue limit)
  unfolding list_tasks
  list_tasks-Reads queue limit =
      bind-Reads order (llen (key Family.queue queue)) _ (llen-Reads order (key Family.queue queue))
        (λ n. elim (Bool-cases (min n limit == 0)) [
          | inl y ↦ rw y (done-Reads order (ok []))
          | inr f ↦ rw f (
              bind-Reads order (lrange (key Family.queue queue) 0 (pos (min n limit - 1)))
                (get_each codec)
                (lrange-Reads order (key Family.queue queue) 0 (pos (min n limit - 1)))
                get_each-Reads)
        ])

  worker_bytes-Reads : (b : Option B) → Reads order (worker_bytes codec b)
  worker_bytes-Reads none = done-Reads order (err (serialization "Worker data is not bytes"))
  worker_bytes-Reads (some b) =
      bind-Reads order (done (codec.worker_from_slice b)) _
        (done-Reads order (codec.worker_from_slice b)) (λ m. done-Reads order (ok _))

  worker_found-Reads : (v : Option (Value B)) → Reads order (worker_found codec v)
  worker_found-Reads none = done-Reads order (err (task_not_found "Worker {} not found"))
  worker_found-Reads (some v) = worker_bytes-Reads (codec.as_bytes v)

  pub get_worker-Reads : (id : String) → Reads order (get_worker codec id)
  unfolding get_worker
  get_worker-Reads id =
      bind-Reads order (get (key Family.meta_worker id)) (worker_found codec)
        (get-Reads order (key Family.meta_worker id)) worker_found-Reads

  get_each_worker-Reads : (ids : List String) → Reads order (get_each_worker codec ids)
  get_each_worker-Reads [] = done-Reads order (ok [])
  get_each_worker-Reads (id ∷ ids) =
      attempt-Reads order (get_worker codec id) _ (get_worker-Reads id) (λ r.
        bind-Reads order (get_each_worker codec ids) _ (get_each_worker-Reads ids)
          (λ l. done-Reads order (ok _)))

  pub list_workers-Reads : Reads order (list_workers codec)
  unfolding list_workers
  list_workers-Reads =
      bind-Reads order (smembers (key Family.meta_workers "")) (get_each_worker codec)
        (smembers-Reads order (key Family.meta_workers "")) get_each_worker-Reads

pub list_queues-Reads :
    {B : Type 0} (order : List String → List String) → Reads {B = B} order list_queues
unfolding list_queues
list_queues-Reads order = smembers-Reads order (key Family.meta_queues "")

-- ===== src/Client/Batch/Reading.antt =====
-- A task that `enqueue_batch` stores cannot be read by a worker (rediq/src/client/builder.rs,
-- rediq/src/server/worker.rs).
use rediq.Prelude.{
  ℕ, suc, String, ◌≡◌, ◌∙◌, none, some, List, [], ◌∷◌, ◌++◌, false, arith, eq_refl, contains,
  if◌then◌else◌,
}
use rediq.Errors.{ok, err, redis, wrong_type}
use rediq.Keys.{Family, key}
use rediq.Redis.{bytes, ◌>>◌}
use rediq.Redis.Keyspace.{
  Keyspace, string, put, renew, as_list, as_set, store_list, store_set, present, effect,
}
use rediq.Redis.Server.{Server, outcome, outcome-eq-replay, replay, replay-then}
use rediq.Config.{RediqConfig}
use rediq.Task.{Task}
use rediq.Codec.{Codec}
use rediq.Client.Batch.{enqueue_batch}
use rediq.Worker.{dequeue_task, load_task}

module _ {B : Type 0} (codec : Codec B) (cfg : RediqConfig) (iteration : List String → List String)
    (s : Server B) (db : s.Db) (t : Task) (packed : B) (ttl : ℕ)
    (packs : codec.to_vec t ≡ ok packed) (lives : cfg.task_ttl ≡ suc ttl)
    (common : t.options.unique_key ≡ none) (single : iteration (t.queue ∷ []) ≡ t.queue ∷ []) where
  abbrev batched : List String → List String → Keyspace B
  batched queues waiting =
      store_set
        (put
          (store_list (renew (s.view db) (key Family.task t.id) (string (bytes packed)) none)
            (key Family.queue t.queue) (waiting ++ t.id ∷ []))
          (key Family.task t.id) (some (string (bytes packed), some (suc ttl))))
        (key Family.meta_queues "")
        (if contains queues t.queue then queues else queues ++ t.queue ∷ [])

  batching :
      (queues waiting : List String)
      → as_set (s.view db (key Family.meta_queues "")) ≡ some queues
      → as_list (s.view db (key Family.queue t.queue)) ≡ some waiting
      → replay s.order (enqueue_batch codec cfg iteration (t ∷ [])) (s.view db)
        ≡ (ok (t.id ∷ []), batched queues waiting)
  unfolding replay effect enqueue_batch
  batching queues waiting q w = ground (arith, packs, lives, common, single, eq_refl t.id, q, w)

  -- A batch of one task stores it as a string, appends it to its queue and registers the queue.
  pub enqueue_batch_single :
      (queues waiting : List String)
      → as_set (s.view db (key Family.meta_queues "")) ≡ some queues
      → as_list (s.view db (key Family.queue t.queue)) ≡ some waiting
      → outcome s (enqueue_batch codec cfg iteration (t ∷ [])) db
        ≡ (ok (t.id ∷ []), batched queues waiting)
  enqueue_batch_single queues waiting q w =
      outcome-eq-replay s (enqueue_batch codec cfg iteration (t ∷ [])) db
      ∙ batching queues waiting q w

  -- After `enqueue_batch` of one task without a unique key in an empty queue that is not paused,
  -- whose active tasks are a list and with the set of queues readable, `dequeue_task` fails with
  -- the wrong type; the task is then among the active tasks, and its details are a string. The
  -- hash set of one queue is gone through as that queue.
  pub enqueue_batch-dequeue :
      (queues a : List String) (timeout now : ℕ)
      → as_set (s.view db (key Family.meta_queues "")) ≡ some queues
      → as_list (s.view db (key Family.queue t.queue)) ≡ some []
      → as_list (s.view db (key Family.active t.queue)) ≡ some a
      → present (s.view db (key Family.pause t.queue)) ≡ false
      → outcome s
          (do enqueue_batch codec cfg iteration (t ∷ []); dequeue_task codec timeout t.queue now)
          db
        ≡ (
          err (redis wrong_type),
          store_list
              (store_list (batched queues []) (key Family.queue t.queue) [])
              (key Family.active t.queue)
              (t.id ∷ a),
        )
  unfolding replay effect dequeue_task load_task
  enqueue_batch-dequeue queues a timeout now q w act p =
      outcome-eq-replay s
        (do enqueue_batch codec cfg iteration (t ∷ []); dequeue_task codec timeout t.queue now) db
      ∙ replay-then s.order (enqueue_batch codec cfg iteration (t ∷ []))
          (λ _. dequeue_task codec timeout t.queue now) (s.view db) (batched queues []) (t.id ∷ [])
          (batching queues [] q w)
      ∙ ground (arith, act, p, eq_refl t.queue, eq_refl t.id)

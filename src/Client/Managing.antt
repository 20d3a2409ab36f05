-- ===== src/Client/Managing.antt =====
-- What the queue operations of the client do to the data (rediq/src/client/builder.rs).
use rediq.Prelude.{
  take-length, ℕ, suc, String, ◌≡◌, ap, ◌∙◌, Option, none, some, List, [], ◌∷◌, ◌++◌, true, false,
  arith, remove_first, eq_refl, length, contains,
}
use rediq.Errors.{Result, ok, err}
use rediq.Keys.{Family, key}
use rediq.Redis.{bytes, text, Value, ◌>>◌}
use rediq.Redis.Keyspace.{
  Keyspace, hash, string, as_list, effect, store_list, expiry, erase, put, put_fields,
}
use rediq.Redis.Server.{Server, outcome, outcome-eq-replay, replay}
use rediq.Redis.Reads.{put-put, put_same}
use rediq.Redis.Hashes.{hash_slot-put_fields}
use rediq.Config.{RediqConfig}
use rediq.Task.{Task}
use rediq.Codec.{Codec}
use rediq.Worker.{dequeue_task}
use rediq.Errors.{queue_paused}
use rediq.Worker.Dequeue.{IsReadable}
use rediq.Client.Queues.{pause_queue, resume_queue, flush_queue, cancel_task, retry_task, reset}

module _ {B : Type 0} (s : Server B) (db : s.Db) (queue : String) where
  -- `dequeue_task` right after `pause_queue` of the same queue fails as paused, whatever the data
  -- are.
  pub pause-dequeue :
      (codec : Codec B) (timeout now : ℕ)
      → (outcome s (do pause_queue queue; dequeue_task codec timeout queue now) db).0
        ≡ err (queue_paused queue)
  unfolding replay effect pause_queue dequeue_task
  pause-dequeue codec timeout now =
      ap (λ (o : Result (Option Task) × Keyspace B). o.0)
        (outcome-eq-replay s (do pause_queue queue; dequeue_task codec timeout queue now) db)
      ∙ ground (arith, eq_refl queue)

  -- Pausing a queue that is not paused and resuming it leaves the data as they were.
  pub pause-resume :
      s.view db (key Family.pause queue) ≡ none
      → outcome s (do pause_queue queue; resume_queue queue) db ≡ (ok tt, s.view db)
  unfolding replay effect pause_queue resume_queue
  pause-resume h =
      outcome-eq-replay s (do pause_queue queue; resume_queue queue) db
      ∙ ap (λ (ks : Keyspace B). (ok tt, ks))
          (put-put (s.view db) (key Family.pause queue) (some (string (text "true"), none)) none
            ∙ put_same (s.view db) (key Family.pause queue) none h)

  -- `flush_queue` counts the waiting tasks and forgets the list; the other states stay.
  pub flush_queue_counts :
      (waiting : List String)
      → as_list (s.view db (key Family.queue queue)) ≡ some waiting
      → outcome s (flush_queue queue) db
        ≡ (ok (length waiting), erase (s.view db) (key Family.queue queue))
  unfolding replay effect flush_queue
  flush_queue_counts waiting h = outcome-eq-replay s (flush_queue queue) db ∙ ground arith

  module _ (codec : Codec B) (cfg : RediqConfig) (id : String) (dead : List String)
      (d : as_list (s.view db (key Family.dead queue)) ≡ some dead) where
    pub retry_task_absent :
        contains dead id ≡ false
        → outcome s (retry_task codec cfg id queue) db ≡ (ok false, s.view db)
    unfolding replay effect retry_task
    retry_task_absent h =
        outcome-eq-replay s (retry_task codec cfg id queue) db ∙ ground (arith, take-length dead)

    -- `retry_task` of a task in the queue's list of dead tasks with readable details stores it as
    -- pending without counted failures, removes it from the dead tasks, appends it to the queue,
    -- and gives true; nothing else changes.
    pub retry_task_requeues :
        (h : List (String × Value B)) (b b' : B) (t : Task) (ttl : ℕ) (waiting : List String)
        → contains dead id ≡ true
        → IsReadable codec (s.view db) id h b t
        → codec.to_vec (reset t) ≡ ok b'
        → cfg.task_ttl ≡ suc ttl
        → as_list (s.view db (key Family.queue queue)) ≡ some waiting
        → outcome s (retry_task codec cfg id queue) db ≡ (
          ok true,
          store_list
              (store_list
                (put (s.view db) (key Family.task id) (
                  some (
                    hash (
                        put_fields
                          (("data", bytes b') ∷ ("queue", bytes (codec.utf8 queue)) ∷ [])
                          h),
                    some (suc ttl),
                  )))
                (key Family.dead queue)
                (remove_first id dead))
              (key Family.queue queue)
              (waiting ++ id ∷ []),
        )
    unfolding replay effect retry_task
    retry_task_requeues h b b' t ttl waiting m r p l w =
        outcome-eq-replay s (retry_task codec cfg id queue) db
        ∙ ground (
          arith,
          r.held,
          r.has_data,
          r.read,
          r.unpacks,
          take-length dead,
          eq_refl id,
          hash_slot-put_fields (expiry (s.view db (key Family.task id))) "data" (bytes b')
              (("queue", bytes (codec.utf8 queue)) ∷ []) h,
          put-put (s.view db) (key Family.task id)
              (some (
                hash (put_fields (("data", bytes b') ∷ ("queue", bytes (codec.utf8 queue)) ∷ []) h),
                expiry (s.view db (key Family.task id)),
              ))
              (some (
                hash (put_fields (("data", bytes b') ∷ ("queue", bytes (codec.utf8 queue)) ∷ []) h),
                some (suc ttl),
              )),
        )

  module _ (id : String) (waiting : List String)
      (w : as_list (s.view db (key Family.queue queue)) ≡ some waiting) where
    -- `cancel_task` of a task in the queue's list removes its first occurrence there, deletes its
    -- details, its pending dependencies, its dependents and its progress, and says that it was
    -- pending; nothing else changes.
    pub cancel_task_pending :
        contains waiting id ≡ true
        → outcome s (cancel_task id queue) db ≡ (
          ok (some "pending"),
          erase
              (erase
                (erase
                  (erase
                    (store_list (s.view db) (key Family.queue queue) (remove_first id waiting))
                    (key Family.task id))
                  (key Family.pending_deps id))
                (key Family.task_deps id))
              (key Family.progress id),
        )
    unfolding replay effect cancel_task
    cancel_task_pending h = outcome-eq-replay s (cancel_task id queue) db ∙ ground arith

-- ===== src/Worker/Settling.antt =====
-- How `process_task` settles a failed task (rediq/src/server/worker.rs).
use rediq.Prelude.{
  ℕ, suc, ◌+◌, ◌≤◌, pos, String, ◌≡◌, ◌∙◌, Option, some, List, [], ◌∷◌, true, false, arith,
  remove_first, ℤ, eq_refl,
}
use rediq.Errors.{Error, ok, err, display}
use rediq.Keys.{Family, key}
use rediq.Redis.{bytes, text, Value, number}
use rediq.Redis.Keyspace.{
  Keyspace, hash, as_list, as_hash, as_zset, as_set, effect, store_list, put_fields, put,
  store_zset, rank, unrank, expiry,
}
use rediq.Redis.Server.{
  order_of_nothing, Server, outcome, outcome-eq-replay, replay, replay-then, replay-tried,
}
use rediq.Redis.Reads.{put-put}
use rediq.Redis.Hashes.{hash_slot-put_fields}
use rediq.Config.{RediqConfig}
use rediq.Task.{Task, TaskStatus, can_retry, retry_delay, as_secs}
use rediq.Codec.{Codec}
use rediq.Dependencies.{fail_dependents}
use rediq.Progress.{new_progress, default_progress, report, report_with_message}
use rediq.Worker.{
  settle_processed, process_task, Handled, process_result, settle, retry_or_bury, ack_task,
  acknowledged, schedule_retry, failed_once,
}

module _ {B : Type 0} (order : List String → List String) (ks : Keyspace B) (id : String)
    (p : List (String × Value B)) (instant now : ℕ) (late : 1000 ≤ instant)
    (held : as_hash (ks (key Family.progress id)) ≡ some p) where
  abbrev pub started : Keyspace B
  started = put ks (key Family.progress id) (
      some
        (hash (put_fields (("current", number 0) ∷ ("updated_at", number now) ∷ []) p), some 3600))

  pub starting :
      replay order (report (new_progress id default_progress instant) 0 instant now) ks ≡ (
        ok (record (new_progress id default_progress instant) {
          last_update = instant;
          current_value = 0;
        }),
        started,
      )
  unfolding replay effect report report_with_message
  starting =
      let k = key Family.progress id in
      let r : List (String × Value B) = ("updated_at", number now) ∷ [] in
      ground (
        arith,
        eq_refl id,
        hash_slot-put_fields (expiry (ks k)) "current" (number 0) r p,
        put-put ks k (some (hash (put_fields (("current", number 0) ∷ r) p), expiry (ks k)))
            (some (hash (put_fields (("current", number 0) ∷ r) p), some 3600)),
      )

module _ {B : Type 0} (codec : Codec B) (order : List String → List String) (worker_id : String)
    (cfg : RediqConfig) (ks : Keyspace B) (t : Task) (status : TaskStatus) (e : Option String)
    (now ttl : ℕ) (b : B) (a : List String) (h : List (String × Value B))
    (lives : cfg.task_ttl ≡ suc ttl) (actives : as_list (ks (key Family.active t.queue)) ≡ some a)
    (details : as_hash (ks (key Family.task t.id)) ≡ some h) where
  -- The data behind the writes that `ack_task` makes for every status.
  abbrev pub released : Keyspace B
  released =
      put (store_list ks (key Family.active t.queue) (remove_first t.id a)) (key Family.task t.id) (
        some
          (hash (put_fields (("data", bytes b) ∷ ("queue", text t.queue) ∷ []) h), some (suc ttl)))

  pub acknowledging :
      codec.to_vec (acknowledged codec worker_id t status e) ≡ ok b
      → replay order (ack_task codec worker_id cfg t status e now) ks
        ≡ replay order (settle_processed codec worker_id t now status) released
  unfolding replay effect ack_task
  acknowledging packs =
      let k = key Family.task t.id in
      let r : List (String × Value B) = ("queue", text t.queue) ∷ [] in
      ground (
        arith,
        packs,
        lives,
        actives,
        details,
        eq_refl t.id,
        hash_slot-put_fields (expiry (ks k)) "data" (bytes b) r h,
        put-put (store_list ks (key Family.active t.queue) (remove_first t.id a)) k
            (some (hash (put_fields (("data", bytes b) ∷ r) h), expiry (ks k)))
            (some (hash (put_fields (("data", bytes b) ∷ r) h), some (suc ttl))),
      )

-- What a worker finds about a task that it holds: the active tasks of the queue are a list, the
-- details and the progress are hashes, the expiry of details is positive, and the monotonic clock
-- has run for a second at least.
pub record IsHeld {B : Type 0} (ks : Keyspace B) (cfg : RediqConfig) (t : Task) (instant ttl : ℕ)
    (a : List String) (h p : List (String × Value B)) : Type 0 where
  pub late : 1000 ≤ instant
  pub lives : cfg.task_ttl ≡ suc ttl
  pub actives : as_list (ks (key Family.active t.queue)) ≡ some a
  pub details : as_hash (ks (key Family.task t.id)) ≡ some h
  pub progress : as_hash (ks (key Family.progress t.id)) ≡ some p

module _ {B : Type 0} (codec : Codec B) (s : Server B) (worker_id : String) (cfg : RediqConfig)
    (db : s.Db) (t : Task) (handled : Handled) (instant now ttl : ℕ) (a : List String)
    (h p : List (String × Value B)) (held : IsHeld (s.view db) cfg t instant ttl a h p) where
  abbrev begun : Keyspace B
  begun = started s.order (s.view db) t.id p instant now held.late held.progress

  beginning :
      replay s.order (process_task codec cfg worker_id t (ok tt) handled instant now) (s.view db)
      ≡ replay s.order
          (settle codec cfg worker_id
            (new_progress t.id default_progress instant)
            t
            instant
            now
            (process_result handled))
          begun
  unfolding process_task
  beginning =
      replay-tried s.order (report (new_progress t.id default_progress instant) 0 instant now) _
        (s.view db) begun _
        (starting s.order (s.view db) t.id p instant now held.late held.progress)

  -- If a handler fails or times out on a held task that has attempts left and whose queue has a
  -- readable retry set, and the hooks before it succeeded, `process_task` gives the error,
  -- reports the progress 0, takes the task from the active tasks, stores it with the failure
  -- counted, and puts it in the retry set of its queue at now plus its delay; nothing else
  -- changes.
  pub process_task_retried :
      (e : Error) (b : B) (delay : ℕ) (waiting : List (String × ℤ))
      → process_result handled ≡ err e
      → can_retry (failed_once t e) ≡ true
      → retry_delay (failed_once t e) ≡ some delay
      → codec.to_vec
          (acknowledged codec worker_id (failed_once t e) TaskStatus.retry (some (display e)))
        ≡ ok b
      → as_zset (s.view db (key Family.retry t.queue)) ≡ some waiting
      → outcome s (process_task codec cfg worker_id t (ok tt) handled instant now) db ≡ (
        err e,
        store_zset
            (released codec s.order worker_id cfg begun
              (failed_once t e)
              TaskStatus.retry
              (some (display e))
              now
              ttl
              b
              a
              h
              held.lives
              held.actives
              held.details)
            (key Family.retry t.queue)
            (rank t.id (pos (now + as_secs delay)) (unrank t.id waiting)),
      )
  unfolding schedule_retry replay effect
  process_task_retried e b delay waiting f c r packs z =
      outcome-eq-replay s (process_task codec cfg worker_id t (ok tt) handled instant now) db
      ∙ beginning
      ∙ rw f (
          replay-then s.order
            (retry_or_bury codec cfg worker_id (failed_once t e) e now
              (can_retry (failed_once t e)))
            _ begun _ tt
            (rw c (
              replay-then s.order
                (ack_task codec worker_id cfg (failed_once t e) TaskStatus.retry (some (display e))
                  now)
                _ begun _ tt
                (acknowledging codec s.order worker_id cfg begun (failed_once t e) TaskStatus.retry
                  (some (display e)) now ttl b a h held.lives held.actives held.details packs)
              ∙ (ground arith))))

  -- If a handler fails or times out on a held task that has no attempts left and on which no task
  -- depends, and the hooks before it succeeded, `process_task` gives the error, reports the
  -- progress 0, takes the task from the active tasks and stores it as dead; nothing else changes,
  -- so the queue's list of dead tasks does not get it.
  pub process_task_buried :
      (e : Error) (b : B)
      → process_result handled ≡ err e
      → can_retry (failed_once t e) ≡ false
      → codec.to_vec
          (acknowledged codec worker_id (failed_once t e) TaskStatus.dead (some (display e)))
        ≡ ok b
      → as_set (s.view db (key Family.task_deps t.id)) ≡ some []
      → outcome s (process_task codec cfg worker_id t (ok tt) handled instant now) db ≡ (
        err e,
        released codec s.order worker_id cfg begun
            (failed_once t e)
            TaskStatus.dead
            (some (display e))
            now
            ttl
            b
            a
            h
            held.lives
            held.actives
            held.details,
      )
  unfolding fail_dependents replay effect
  process_task_buried e b f c packs d =
      outcome-eq-replay s (process_task codec cfg worker_id t (ok tt) handled instant now) db
      ∙ beginning
      ∙ rw f (
          replay-then s.order
            (retry_or_bury codec cfg worker_id (failed_once t e) e now
              (can_retry (failed_once t e)))
            _ begun _ tt
            (rw c (
              replay-then s.order
                (ack_task codec worker_id cfg (failed_once t e) TaskStatus.dead (some (display e))
                  now)
                _ begun _ tt
                (acknowledging codec s.order worker_id cfg begun (failed_once t e) TaskStatus.dead
                  (some (display e)) now ttl b a h held.lives held.actives held.details packs)
              ∙ (ground (arith, order_of_nothing s)))))

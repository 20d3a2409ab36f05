-- ===== src/Worker/Acknowledging.antt =====
-- How a processed task is acknowledged (`ack_task` of rediq/src/server/worker.rs).
use rediq.Prelude.{ℕ, suc, String, ◌≡◌, ◌∙◌, Option, none, some, List, [], arith}
use rediq.Errors.{ok}
use rediq.Keys.{Family, key}
use rediq.Redis.{bytes, Value, number}
use rediq.Redis.Keyspace.{
  Keyspace, string, as_list, as_hash, as_string, as_set, effect, put_field, renew, store_hash,
  field, incremented,
}
use rediq.Redis.Server.{Server, outcome, outcome-eq-replay, replay, replay-then, order_of_nothing}
use rediq.Config.{RediqConfig}
use rediq.Task.{Task, TaskStatus}
use rediq.Codec.{Codec, WorkerMetadata}
use rediq.Dependencies.{check_dependents}
use rediq.Worker.{ack_task, acknowledged, counted, increment_processed}
use rediq.Worker.Settling.{acknowledging, released}

-- What a worker that acknowledges a task finds: its own metadata, readable, and the queue's counter.
pub record IsCounting {B : Type 0} (codec : Codec B) (ks : Keyspace B) (worker_id queue : String)
    (now : ℕ) (m : WorkerMetadata) (b b' : B) (stats : List (String × Value B)) (n : ℕ)
    : Type 0 where
  pub stored : as_string (ks (key Family.meta_worker worker_id)) ≡ some (some (bytes b))
  pub read : codec.as_bytes (bytes b) ≡ some b
  pub unpacks : codec.worker_from_slice b ≡ ok m
  pub packs : codec.worker_to_vec (counted codec worker_id m now) ≡ ok b'
  pub counts : as_hash (ks (key Family.stats queue)) ≡ some stats
  pub fits : incremented (field "processed" stats) 1 ≡ some n

module _ {B : Type 0} (codec : Codec B) (s : Server B) (worker_id : String) (cfg : RediqConfig)
    (db : s.Db) (t : Task) (e : Option String) (now ttl : ℕ) (b : B) (a : List String)
    (h : List (String × Value B)) (lives : cfg.task_ttl ≡ suc ttl)
    (actives : as_list (s.view db (key Family.active t.queue)) ≡ some a)
    (details : as_hash (s.view db (key Family.task t.id)) ≡ some h) where
  -- The task is stored as processed and no longer active.
  abbrev freed : Keyspace B
  freed =
      released codec s.order worker_id cfg (s.view db) t TaskStatus.processed e now ttl b a h lives
        actives details

  -- The acknowledgement of a processed task on which no task depends, by a worker with readable
  -- metadata, takes the task from the active tasks, stores it as processed with its expiry, and
  -- counts one more task for the worker and for the queue; nothing else changes.
  pub ack_task_processed :
      (m : WorkerMetadata) (w w' : B) (stats : List (String × Value B)) (n : ℕ)
      → codec.to_vec (acknowledged codec worker_id t TaskStatus.processed e) ≡ ok b
      → IsCounting codec (s.view db) worker_id t.queue now m w w' stats n
      → as_set (s.view db (key Family.task_deps t.id)) ≡ some []
      → outcome s (ack_task codec worker_id cfg t TaskStatus.processed e now) db ≡ (
        ok tt,
        store_hash
            (renew freed (key Family.meta_worker worker_id) (string (bytes w')) none)
            (key Family.stats t.queue)
            (put_field "processed" (number n) stats),
      )
  unfolding replay effect increment_processed check_dependents
  ack_task_processed m w w' stats n packs c d =
      outcome-eq-replay s (ack_task codec worker_id cfg t TaskStatus.processed e now) db
      ∙ acknowledging codec s.order worker_id cfg (s.view db) t TaskStatus.processed e now ttl b a h
          lives actives details packs
      ∙ replay-then s.order (increment_processed codec worker_id now) _ freed
          (renew freed (key Family.meta_worker worker_id) (string (bytes w')) none) tt
          (ground (arith, c.stored, c.read, c.unpacks, c.packs))
      ∙ ground (arith, c.counts, c.fits, d, order_of_nothing s)

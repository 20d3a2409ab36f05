-- ===== src/Worker/Fallback.antt =====
-- When a worker turns from the priority queue to the list (`dequeue_task_any` of
-- rediq/src/server/worker.rs).
use rediq.Prelude.{ℕ, String, ◌≡◌, ◌∙◌, sym, some, [], true, false, arith, Bool-cases, inl, inr}
use rediq.Errors.{err, redis, unknown_reply}
use rediq.Keys.{Family, key}
use rediq.Redis.Keyspace.{present, as_zset, effect}
use rediq.Redis.Server.{Server, outcome, outcome-eq-replay, replay, replay-tried}
use rediq.Config.{RediqConfig}
use rediq.Codec.{Codec}
use rediq.Worker.{dequeue_task_priority, dequeue_task_any, dequeue_task, fall_back}

module _ {B : Type 0} (codec : Codec B) (s : Server B) (db : s.Db) (cfg : RediqConfig)
    (queue : String) (now : ℕ)
    (z : as_zset (s.view db (key Family.priority_queue queue)) ≡ some []) where
  refused_paused :
      present (s.view db (key Family.pause queue)) ≡ true
      → replay s.order (dequeue_task_priority codec cfg queue now) (s.view db)
        ≡ (err (redis (unknown_reply "ERR_QUEUE_PAUSED")), s.view db)
  unfolding replay effect dequeue_task_priority
  refused_paused h = ground arith

  refused_empty :
      present (s.view db (key Family.pause queue)) ≡ false
      → replay s.order (dequeue_task_priority codec cfg queue now) (s.view db)
        ≡ (err (redis (unknown_reply "ERR_TIMEOUT")), s.view db)
  unfolding replay effect dequeue_task_priority
  refused_empty h = ground arith

  -- While the priority queue is an empty sorted set, `dequeue_task_any` gives the same result and
  -- leaves the same data as `dequeue_task`, whether the queue is paused or not.
  pub dequeue_task_any-falls_back :
      (timeout : ℕ)
      → outcome s (dequeue_task_any codec cfg timeout queue now) db
        ≡ outcome s (dequeue_task codec timeout queue now) db
  unfolding dequeue_task_any
  dequeue_task_any-falls_back timeout =
      let first = dequeue_task_priority codec cfg queue now in
      let ks = s.view db in
      outcome-eq-replay s (dequeue_task_any codec cfg timeout queue now) db
      ∙ elim (Bool-cases (present (ks (key Family.pause queue)))) [
        | inl y ↦
            replay-tried s.order first (fall_back codec timeout queue now) ks ks
              (err (redis (unknown_reply "ERR_QUEUE_PAUSED"))) (refused_paused y)
        | inr n ↦
            replay-tried s.order first (fall_back codec timeout queue now) ks ks
              (err (redis (unknown_reply "ERR_TIMEOUT"))) (refused_empty n)
      ]
      ∙ sym (outcome-eq-replay s (dequeue_task codec timeout queue now) db)

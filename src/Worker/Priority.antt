-- ===== src/Worker/Priority.antt =====
-- Dequeueing from the priority queue (rediq/src/server/worker.rs; PDEQUEUE_SCRIPT of
-- rediq/src/storage/redis/mod.rs).
use rediq.Prelude.{
  ℕ, suc, ℤ, String, ◌≡◌, ◌∙◌, Option, some, List, [], ◌∷◌, true, false, arith, eq_refl,
}
use rediq.Errors.{ok, err, redis, unknown_reply}
use rediq.Keys.{Key, Family, key}
use rediq.Redis.{text, Value, number}
use rediq.Redis.Keyspace.{
  Keyspace, hash, present, as_list, as_hash, as_zset, effect, store_list, put_fields, store_zset,
  put, unrank, expiry,
}
use rediq.Redis.Server.{Server, outcome, outcome-eq-replay, replay}
use rediq.Redis.Reads.{put-put}
use rediq.Redis.Hashes.{hash_slot-put_fields}
use rediq.Config.{RediqConfig}
use rediq.Redis.Client.{pdequeue_lua}

module _ {B : Type 0} (s : Server B) (db : s.Db) (cfg : RediqConfig) (queue : String)
    (now : ℕ) where
  -- The script refuses a paused queue, with an error table that comes as a Redis error.
  pub pdequeue_paused :
      present (s.view db (key Family.pause queue)) ≡ true
      → outcome s
          (pdequeue_lua
            (key Family.priority_queue queue)
            (key Family.active queue)
            (key Family.pause queue)
            now
            cfg.task_ttl)
          db
        ≡ (err (redis (unknown_reply "ERR_QUEUE_PAUSED")), s.view db)
  unfolding replay effect
  pdequeue_paused h =
      outcome-eq-replay s
        (pdequeue_lua (key Family.priority_queue queue) (key Family.active queue)
          (key Family.pause queue) now cfg.task_ttl)
        db
      ∙ ground arith

  module _ (id : String) (score : ℤ) (rest : List (String × ℤ)) (a : List String)
      (h : List (String × Value B)) (ttl : ℕ)
      (free : present (s.view db (key Family.pause queue)) ≡ false)
      (z : as_zset (s.view db (key Family.priority_queue queue)) ≡ some ((id, score) ∷ rest))
      (w : as_list (s.view db (key Family.active queue)) ≡ some a)
      (d : as_hash (s.view db (key Family.task id)) ≡ some h) (lives : cfg.task_ttl ≡ suc ttl) where
    -- `pdequeue_lua` on a queue that is not paused takes the first member of the sorted set, puts
    -- it at the head of the active tasks, marks its details as active since now with a new
    -- expiry, and gives its identifier; nothing else changes.
    pub pdequeue_first :
        outcome s
          (pdequeue_lua
            (key Family.priority_queue queue)
            (key Family.active queue)
            (key Family.pause queue)
            now
            cfg.task_ttl)
          db
        ≡ (
          ok id,
          put
              (store_list
                (store_zset (s.view db) (key Family.priority_queue queue) rest)
                (key Family.active queue)
                (id ∷ a))
              (key Family.task id)
              (some (
                hash (
                    put_fields
                      (("processed_at", number now) ∷ [])
                      (put_fields (("status", text "active") ∷ []) h)),
                some (suc ttl),
              )),
        )
    unfolding replay effect unrank
    pdequeue_first =
        outcome-eq-replay s
          (pdequeue_lua (key Family.priority_queue queue) (key Family.active queue)
            (key Family.pause queue) now cfg.task_ttl)
          db
        ∙ ground (
          arith,
          free,
          z,
          w,
          d,
          lives,
          eq_refl id,
          hash_slot-put_fields t "status" (text "active") [] h,
          hash_slot-put_fields t "processed_at" (number now) [] started,
          put-put base k (some (hash started, t)) (some (hash timed, t)),
          put-put base k (some (hash timed, t)) (some (hash timed, some (suc ttl))),
        )
      where
        k : Key
        k = key Family.task id

        t : Option ℕ
        t = expiry (s.view db k)

        base : Keyspace B
        base =
            store_list (store_zset (s.view db) (key Family.priority_queue queue) rest)
              (key Family.active queue) (id ∷ a)

        started : List (String × Value B)
        started = put_fields (("status", text "active") ∷ []) h

        timed : List (String × Value B)
        timed = put_fields (("processed_at", number now) ∷ []) started

-- ===== src/Worker/Dequeue.antt =====
-- What `dequeue_task` does to the data (rediq/src/server/worker.rs).
use rediq.Prelude.{ℕ, String, ◌≡◌, ◌∙◌, none, some, List, [], ◌∷◌, true, false, arith}
use rediq.Errors.{ok, err, queue_paused}
use rediq.Keys.{Family, key}
use rediq.Redis.{bytes, Value, number}
use rediq.Redis.Keyspace.{
  Keyspace, present, as_list, as_hash, field, effect, store_list, put_fields, store_hash,
}
use rediq.Redis.Server.{Server, outcome, outcome-eq-replay, replay}
use rediq.Task.{Task}
use rediq.Codec.{Codec}
use rediq.Worker.{dequeue_task, load_task, activated}

-- The details of a task are readable: its hash holds bytes, and they unpack to the task.
pub record IsReadable {B : Type 0} (codec : Codec B) (ks : Keyspace B) (id : String)
    (h : List (String × Value B)) (b : B) (t : Task) : Type 0 where
  pub held : as_hash (ks (key Family.task id)) ≡ some h
  pub has_data : field "data" h ≡ some (bytes b)
  pub read : codec.as_bytes (bytes b) ≡ some b
  pub unpacks : codec.from_slice b ≡ ok t

module _ {B : Type 0} (codec : Codec B) (s : Server B) (db : s.Db) (timeout : ℕ) (queue : String)
    (now : ℕ) where
  -- `dequeue_task` of a paused queue fails as paused, and changes nothing.
  pub dequeue_paused :
      present (s.view db (key Family.pause queue)) ≡ true
      → outcome s (dequeue_task codec timeout queue now) db ≡ (err (queue_paused queue), s.view db)
  unfolding replay dequeue_task effect
  dequeue_paused h = outcome-eq-replay s (dequeue_task codec timeout queue now) db ∙ ground arith

  -- Of an empty queue that is not paused it gives no task, and changes nothing.
  pub dequeue_empty :
      present (s.view db (key Family.pause queue)) ≡ false
      → as_list (s.view db (key Family.queue queue)) ≡ some []
      → outcome s (dequeue_task codec timeout queue now) db ≡ (ok none, s.view db)
  unfolding replay dequeue_task effect
  dequeue_empty h q = outcome-eq-replay s (dequeue_task codec timeout queue now) db ∙ ground arith

  -- `dequeue_task` of a queue that is not paused and whose first task has readable details gives
  -- that task, as active since now; its identifier moves from the head of the queue to the head
  -- of the active tasks, and its details get the time in the field `status`.
  pub dequeue_first :
      (id : String) (rest a : List String) (h : List (String × Value B)) (b : B) (t : Task)
      → present (s.view db (key Family.pause queue)) ≡ false
      → as_list (s.view db (key Family.queue queue)) ≡ some (id ∷ rest)
      → as_list (s.view db (key Family.active queue)) ≡ some a
      → IsReadable codec (s.view db) id h b t
      → outcome s (dequeue_task codec timeout queue now) db ≡ (
        ok (some (activated codec t now)),
        store_hash
            (store_list
              (store_list (s.view db) (key Family.queue queue) rest)
              (key Family.active queue)
              (id ∷ a))
            (key Family.task id)
            (put_fields (("status", number now) ∷ []) h),
      )
  unfolding replay dequeue_task load_task effect
  dequeue_first id rest a h b t p q r d =
      outcome-eq-replay s (dequeue_task codec timeout queue now) db
      ∙ ground (arith, d.held, d.has_data, d.read, d.unpacks)

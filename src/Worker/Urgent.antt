-- ===== src/Worker/Urgent.antt =====
-- What `dequeue_task_any` gives of a priority queue with members (rediq/src/server/worker.rs).
use rediq.Prelude.{
  ℕ, suc, ℤ, String, str_eq, ◌≡◌, refl, ap, ◌∙◌, Option, none, some, if◌then◌else◌, sym, List, [],
  ◌∷◌, false, arith, eq_refl,
}
use rediq.Errors.{Result, ok}
use rediq.Keys.{Family, key}
use rediq.Redis.{pure, Value, bytes, text, number}
use rediq.Redis.Keyspace.{Keyspace, present, as_list, as_zset, field, put_fields, effect}
use rediq.Redis.Hashes.{field-put_field}
use rediq.Redis.Server.{Server, outcome, outcome-eq-replay, replay, replay-then, replay-tried}
use rediq.Redis.Client.{pdequeue_lua}
use rediq.Config.{RediqConfig}
use rediq.Task.{Task}
use rediq.Codec.{Codec}
use rediq.Worker.{dequeue_task_priority, dequeue_task_any, load_task, loaded, fall_back, activated}
use rediq.Worker.Dequeue.{IsReadable}
use rediq.Worker.Priority.{pdequeue_first}

module _ {B : Type 0} (codec : Codec B) (s : Server B) (db : s.Db) (cfg : RediqConfig)
    (queue : String) (now : ℕ) (id : String) (score : ℤ) (rest : List (String × ℤ))
    (a : List String) (h : List (String × Value B)) (b : B) (u : Task) (ttl : ℕ)
    (named : str_eq id "" ≡ false) (free : present (s.view db (key Family.pause queue)) ≡ false)
    (z : as_zset (s.view db (key Family.priority_queue queue)) ≡ some ((id, score) ∷ rest))
    (w : as_list (s.view db (key Family.active queue)) ≡ some a)
    (d : IsReadable codec (s.view db) id h b u) (lives : cfg.task_ttl ≡ suc ttl) where
  abbrev active_hash : List (String × Value B)
  active_hash =
      put_fields (("processed_at", number now) ∷ []) (put_fields (("status", text "active") ∷ []) h)

  active_data : field "data" active_hash ≡ some (bytes b)
  active_data =
      field-put_field "data" "processed_at" (number now)
        (put_fields (("status", text "active") ∷ []) h) refl
      ∙ field-put_field "data" "status" (text "active") h refl
      ∙ d.has_data

  first_given :
      (replay s.order (dequeue_task_priority codec cfg queue now) (s.view db)).0
      ≡ ok (some (activated codec u now))
  unfolding replay effect dequeue_task_priority load_task
  first_given =
      let pop =
        pdequeue_lua {B = B} (key Family.priority_queue queue) (key Family.active queue)
          (key Family.pause queue) now cfg.task_ttl in
      ap (λ (r : Result (Option Task) × Keyspace B). r.0)
        (replay-then s.order pop (λ id. if str_eq id "" then pure none else loaded codec id now)
          (s.view db) _ id
          (sym (outcome-eq-replay s pop db)
            ∙ pdequeue_first s db cfg queue now id score rest a h ttl free z w d.held lives))
      ∙ ground (arith, named, eq_refl id, active_data, d.read, d.unpacks)

  -- `dequeue_task_any` of a queue that is not paused gives the first member of its priority queue,
  -- as active since now, when its identifier is not empty and its details are readable.
  pub dequeue_task_any_urgent :
      (timeout : ℕ)
      → (outcome s (dequeue_task_any codec cfg timeout queue now) db).0
        ≡ ok (some (activated codec u now))
  unfolding replay dequeue_task_any
  dequeue_task_any_urgent timeout =
      let first = dequeue_task_priority codec cfg queue now in
      let o = replay s.order first (s.view db) in
      ap (λ (r : Result (Option Task) × Keyspace B). r.0)
        (outcome-eq-replay s (dequeue_task_any codec cfg timeout queue now) db
          ∙ replay-tried s.order first (fall_back codec timeout queue now) (s.view db) o.1 o.0 refl)
      ∙ ap (λ r. (replay s.order (fall_back codec timeout queue now r) o.1).0) first_given

-- ===== src/System/Priorities.antt =====
-- A task that a client gives a priority, and what a worker takes then (rediq/src/client/builder.rs,
-- rediq/src/server/worker.rs).
use rediq.Prelude.{
  ℕ, ℤ, ltb_ℤ, String, str_eq, str_eq_sym, refl, ◌≡◌, ap, sym, ◌∙◌, false, ◌||◌, Option, none, some,
  List, [], ◌∷◌, arith, eq_refl, Bool-cases, inl, inr, if◌then◌else◌,
}
use rediq.Errors.{Result, ok}
use rediq.Keys.{Family, key}
use rediq.Redis.{Value, bytes, text, ◌>>◌}
use rediq.Redis.Keyspace.{Keyspace, present, as_list, as_set, as_zset, precedes, rank, unrank}
use rediq.Redis.Server.{Server, observed, outcome, outcome-eq-replay, replay-then}
use rediq.Config.{RediqConfig}
use rediq.Task.{Task}
use rediq.Codec.{Codec, IsFaithful}
use rediq.Client.{enqueue_priority}
use rediq.Client.Enqueueing.{IsNew, enqueue_priority_ranked, registered, ranked_in}
use rediq.Worker.{dequeue_task_any, activated}
use rediq.Worker.Dequeue.{IsReadable}
use rediq.Worker.Urgent.{dequeue_task_any_urgent}

module _ {B : Type 0} (codec : Codec B) (faithful : IsFaithful codec) (cfg : RediqConfig)
    (s : Server B) (db : s.Db) (t : Task) (now : ℕ) (packed : B) (ttl : ℕ)
    (new : IsNew codec cfg (s.view db) t packed ttl) where
  -- With a faithful codec and a positive expiry, after `enqueue_priority` of a new task with a
  -- priority in range, without a unique key, into the priority queue of a queue that is not
  -- paused, whose first task waits there with readable details, with the active tasks and the set
  -- of queues readable and neither identifier empty nor equal to the other, `dequeue_task_any`
  -- gives the new task if its priority is lower, or equal with a smaller identifier, and the one
  -- that was first otherwise, as active since then.
  pub enqueue_priority-dequeue_task_any :
      (timeout later : ℕ) (id : String) (score : ℤ) (rest : List (String × ℤ))
      (h : List (String × Value B)) (b : B) (u : Task) (queues a : List String)
      → as_zset (s.view db (key Family.priority_queue t.queue)) ≡ some ((id, score) ∷ rest)
      → IsReadable codec (s.view db) id h b u
      → (ltb_ℤ t.options.priority cfg.priority_range.0
          || ltb_ℤ cfg.priority_range.1 t.options.priority)
        ≡ false
      → t.options.unique_key ≡ none
      → str_eq t.id "" ≡ false
      → str_eq id "" ≡ false
      → str_eq id t.id ≡ false
      → as_set (s.view db (key Family.meta_queues "")) ≡ some queues
      → as_list (s.view db (key Family.active t.queue)) ≡ some a
      → present (s.view db (key Family.pause t.queue)) ≡ false
      → (outcome s
          (do enqueue_priority codec cfg t; dequeue_task_any codec cfg timeout t.queue later)
          db).0
        ≡ ok (
            some (
              activated codec
                (if precedes (t.id, t.options.priority) (id, score) then t else u)
                later))
  unfolding rank unrank
  enqueue_priority-dequeue_task_any timeout later id score rest h b u queues a z d fits single named
        other apart q act p =
      let ranks = (id, score) ∷ rest in
      let ks : Keyspace B =
        registered codec cfg s db t now packed ttl new
          (ranked_in codec cfg s db t now packed ttl new ranks z fits) queues in
      let stores =
        sym (outcome-eq-replay s (enqueue_priority codec cfg t) db)
        ∙ enqueue_priority_ranked codec cfg s db t now packed ttl new ranks z fits queues single
            q in
      let take = dequeue_task_any codec cfg timeout t.queue later in
      ap (λ (o : Result (Option Task) × Keyspace B). o.0)
        (outcome-eq-replay s (do enqueue_priority codec cfg t; take) db
          ∙ replay-then s.order (enqueue_priority codec cfg t) (λ _. take) (s.view db) ks t.id
              stores
          ∙ sym (outcome-eq-replay (observed s) take ks))
      ∙ elim (Bool-cases (precedes (t.id, t.options.priority) (id, score))) [
        | inl y ↦
            let details : List (String × Value B) =
              ("data", bytes packed) ∷ ("queue", text t.queue) ∷ [] in
            let readable : IsReadable codec ks t.id details packed t = record {
              held = ground (arith, eq_refl t.id);
              has_data = refl;
              read = faithful.as_bytes-bytes packed;
              unpacks = faithful.unpacks t packed new.packs;
            } in
            rw y (
              dequeue_task_any_urgent codec (observed s) ks cfg t.queue later t.id
                t.options.priority ((id, score) ∷ unrank t.id rest) a details packed t ttl named p
                (ground (arith, y, apart, eq_refl t.queue)) act readable new.lives timeout)
        | inr n ↦
            let readable : IsReadable codec ks id h b u = record {
              held = ground (arith, d.held, apart, str_eq_sym t.id id);
              has_data = d.has_data;
              read = d.read;
              unpacks = d.unpacks;
            } in
            rw n (
              dequeue_task_any_urgent codec (observed s) ks cfg t.queue later id score
                (rank t.id t.options.priority (unrank t.id rest)) a h b u ttl other p
                (ground (arith, n, apart, eq_refl t.queue)) act readable new.lives timeout)
      ]

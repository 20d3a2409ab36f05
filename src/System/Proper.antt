-- ===== src/System/Proper.antt =====
-- The operations of clients, workers and the scheduler send only commands that suit the types of
-- their keys.
use rediq.Prelude.{
  ℕ, ltb_ℤ, pos, String, List, [], ◌∷◌, Option, none, some, true, false, refl, ◌||◌, Bool-cases,
  inl, inr,
}
use rediq.Errors.{ok, err}
use rediq.Keys.{Family, key}
use rediq.Redis.{Prog, done}
use rediq.Redis.Kinds.{Proper}
use rediq.Redis.Sends.{Sends, Sends-bind}
use rediq.Redis.Client.{dedup_add}
use rediq.Config.{RediqConfig}
use rediq.Task.{Task}
use rediq.Codec.{Codec}
use rediq.Client.{
  Cron, store_task, enqueue, enqueue_after, enqueue_free, enqueue_waiting, place_in_group, place,
  claim, claimed, add_pending, add_dependent, enqueue_delayed, enqueue_at, enqueue_priority,
  rank_stored, enqueue_cron, enqueue_line, enqueue_schedule, enqueue_next,
}
use rediq.Client.Queues.{pause_queue, flush_queue, resume_queue}

-- Every command of the program suits the type of its key.
abbrev pub IsProper : {B A : Type 0} → Prog B A → Type 0
IsProper p = Sends Proper p

module _ (B : Type 0) where
  pub flush_queue-IsProper : (q : String) → IsProper (flush_queue {B = B} q)
  unfolding flush_queue
  flush_queue-IsProper q =
      (refl, elim [ ok n ↦ (tt, elim [ ok _ ↦ tt | err _ ↦ tt ]) | err _ ↦ tt ])

  pub pause_queue-IsProper : (q : String) → IsProper (pause_queue {B = B} q)
  unfolding pause_queue
  pause_queue-IsProper q = (refl, λ r. tt)

  pub resume_queue-IsProper : (q : String) → IsProper (resume_queue {B = B} q)
  unfolding resume_queue
  resume_queue-IsProper q = (tt, elim [ ok n ↦ tt | err _ ↦ tt ])

  add_pending-IsProper : (id : String) (l : List String) → IsProper (add_pending {B = B} id l)
  add_pending-IsProper id [] = tt
  add_pending-IsProper id (d ∷ l) = (refl, elim [ ok n ↦ add_pending-IsProper id l | err _ ↦ tt ])

  add_dependent-IsProper : (id : String) (l : List String) → IsProper (add_dependent {B = B} id l)
  add_dependent-IsProper id [] = tt
  add_dependent-IsProper id (d ∷ l) =
      (refl, elim [ ok n ↦ add_dependent-IsProper id l | err _ ↦ tt ])

  dedup_add-IsProper : (q u : String) → IsProper (dedup_add {B = B} (key Family.dedup q) u)
  dedup_add-IsProper q u = (
    refl,
    elim [ ok (true) ↦ tt | ok false ↦ (refl, elim [ ok _ ↦ tt | err _ ↦ tt ]) | err _ ↦ tt ],
  )

  claim-IsProper : (q : String) (u : Option String) → IsProper (claim {B = B} q u)
  claim-IsProper q none = tt
  claim-IsProper q (some u) =
      Sends-bind Proper (dedup_add {B = B} (key Family.dedup q) u) claimed (dedup_add-IsProper q u)
        (elim [ true ↦ tt | false ↦ tt ])

  place-IsProper : (t : Task) → IsProper (place {B = B} t)
  place-IsProper t =
      elim (Bool-cases (ltb_ℤ t.options.priority (pos 50) || ltb_ℤ (pos 50) t.options.priority)) [
        | inl y ↦ rw y (refl, elim [ ok _ ↦ tt | err _ ↦ tt ])
        | inr n ↦ rw n (refl, elim [ ok _ ↦ tt | err _ ↦ tt ])
      ]

  place_in_group-IsProper :
      (t : Task) (now : ℕ) (g : Option String) → IsProper (place_in_group {B = B} t now g)
  place_in_group-IsProper t now none = place-IsProper t
  place_in_group-IsProper t now (some g) =
      (refl, elim [ ok _ ↦ (refl, elim [ ok _ ↦ tt | err _ ↦ tt ]) | err _ ↦ tt ])

  enqueue_free-IsProper : (t : Task) (now : ℕ) → IsProper (enqueue_free {B = B} t now)
  enqueue_free-IsProper t now = (
    refl,
    elim [
      | ok _ ↦
          Sends-bind Proper (claim {B = B} t.queue t.options.unique_key) _
            (claim-IsProper t.queue t.options.unique_key)
            (λ u. place_in_group-IsProper t now t.options.group)
      | err _ ↦ tt
    ],
  )

  enqueue_waiting-IsProper : (t : Task) (l : List String) → IsProper (enqueue_waiting {B = B} t l)
  enqueue_waiting-IsProper t l =
      Sends-bind Proper (add_pending {B = B} t.id l) _ (add_pending-IsProper t.id l) (λ u.
        Sends-bind Proper (add_dependent {B = B} t.id l) _ (add_dependent-IsProper t.id l)
          (λ v. tt))

  enqueue_after-IsProper :
      (t : Task) (now : ℕ) (d : Option (List String)) → IsProper (enqueue_after {B = B} t now d)
  enqueue_after-IsProper t now none = enqueue_free-IsProper t now
  enqueue_after-IsProper t now (some []) = enqueue_free-IsProper t now
  enqueue_after-IsProper t now (some (d ∷ l)) = enqueue_waiting-IsProper t (d ∷ l)

  rank_stored-IsProper : (t : Task) → IsProper (rank_stored {B = B} t)
  rank_stored-IsProper t = (
    refl,
    elim [
      | ok _ ↦
          Sends-bind Proper (claim {B = B} t.queue t.options.unique_key) _
            (claim-IsProper t.queue t.options.unique_key)
            (λ u. (refl, elim [ ok _ ↦ tt | err _ ↦ tt ]))
      | err _ ↦ tt
    ],
  )

module _ {B : Type 0} (codec : Codec B) (cfg : RediqConfig) where
  store_task-IsProper : (t : Task) → IsProper (store_task codec cfg t)
  store_task-IsProper t =
      Sends-bind Proper (done (codec.to_vec t)) _ tt
        (λ b. (refl, elim [ ok _ ↦ (tt, λ r. tt) | err _ ↦ tt ]))

  pub enqueue-IsProper : (t : Task) (now : ℕ) → IsProper (enqueue codec cfg t now)
  unfolding enqueue
  enqueue-IsProper t now =
      Sends-bind Proper (store_task codec cfg t) _ (store_task-IsProper t)
        (λ _. enqueue_after-IsProper B t now t.options.depends_on)

  enqueue_at-IsProper :
      (t : Task) (now : ℕ) (d : Option ℕ) → IsProper (enqueue_at codec cfg t now d)
  enqueue_at-IsProper t now none = tt
  enqueue_at-IsProper t now (some d) =
      Sends-bind Proper (store_task codec cfg t) _ (store_task-IsProper t)
        (λ _. (refl, elim [ ok _ ↦ (refl, elim [ ok _ ↦ tt | err _ ↦ tt ]) | err _ ↦ tt ]))

  pub enqueue_delayed-IsProper : (t : Task) (now : ℕ) → IsProper (enqueue_delayed codec cfg t now)
  unfolding enqueue_delayed
  enqueue_delayed-IsProper t now = enqueue_at-IsProper t now t.options.delay

  pub enqueue_priority-IsProper : (t : Task) → IsProper (enqueue_priority codec cfg t)
  unfolding enqueue_priority
  enqueue_priority-IsProper t =
      elim (Bool-cases (
        ltb_ℤ t.options.priority cfg.priority_range.0
        || ltb_ℤ cfg.priority_range.1 t.options.priority)) [
          | inl y ↦ rw y tt
          | inr n ↦ rw n (
              Sends-bind Proper (store_task codec cfg t) (λ _. rank_stored t)
                (store_task-IsProper t) (λ _. rank_stored-IsProper B t))
        ]

  enqueue_next-IsProper : (t : Task) (next : Option ℕ) → IsProper (enqueue_next codec cfg t next)
  enqueue_next-IsProper t none = tt
  enqueue_next-IsProper t (some n) =
      Sends-bind Proper (store_task codec cfg t) _ (store_task-IsProper t)
        (λ _. (refl, elim [ ok _ ↦ (refl, elim [ ok _ ↦ tt | err _ ↦ tt ]) | err _ ↦ tt ]))

  enqueue_schedule-IsProper :
      (t : Task) (now : ℕ) (schedule : Option (ℕ → Option ℕ))
      → IsProper (enqueue_schedule codec cfg t now schedule)
  enqueue_schedule-IsProper t now none = tt
  enqueue_schedule-IsProper t now (some upcoming) = enqueue_next-IsProper t (upcoming now)

  enqueue_line-IsProper :
      (cron : Cron) (t : Task) (now : ℕ) (line : Option String)
      → IsProper (enqueue_line codec cfg cron t now line)
  enqueue_line-IsProper cron t now none = tt
  enqueue_line-IsProper cron t now (some line) = enqueue_schedule-IsProper t now (cron.parse line)

  pub enqueue_cron-IsProper :
      (cron : Cron) (t : Task) (now : ℕ) → IsProper (enqueue_cron codec cfg cron t now)
  unfolding enqueue_cron
  enqueue_cron-IsProper cron t now = enqueue_line-IsProper cron t now t.options.cron

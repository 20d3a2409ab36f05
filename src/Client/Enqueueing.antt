-- ===== src/Client/Enqueueing.antt =====
-- What `enqueue` and `enqueue_priority` do to the data (rediq/src/client/builder.rs).
use rediq.Prelude.{
  ℕ, suc, ℤ, pos, ltb_ℤ, String, ◌≡◌, ◌≢◌, refl, ◌∙◌, true, false, ◌||◌, Option, none, some, List,
  [], ◌∷◌, ◌++◌, contains, arith, eq_refl, if◌then◌else◌,
}
use rediq.Errors.{ok, err, validation}
use rediq.Keys.{Family, key}
use rediq.Redis.{bytes, text}
use rediq.Redis.Keyspace.{
  Entry, Keyspace, hash, put, as_list, as_set, as_zset, store_list, store_set, store_zset, effect,
  rank, unrank,
}
use rediq.Redis.Server.{Server, outcome, outcome-eq-replay, replay, replay-bind}
use rediq.Redis.Reads.{put-put}
use rediq.Config.{RediqConfig}
use rediq.Task.{Task}
use rediq.Codec.{Codec}
use rediq.Client.{enqueue, enqueue_priority, enqueue_after, store_task, rank_stored}

-- The details of a task as they are stored, with the seconds they live.
abbrev pub details : {B : Type 0} → B → String → ℕ → Option (Entry B × Option ℕ)
details packed queue ttl =
    some (hash (("data", bytes packed) ∷ ("queue", text queue) ∷ []), some ttl)

-- A new task: nothing is stored under its identifier, and it packs to `packed`.
pub record IsNew {B : Type 0} (codec : Codec B) (cfg : RediqConfig) (ks : Keyspace B) (t : Task)
    (packed : B) (ttl : ℕ) : Type 0 where
  pub fresh : ks (key Family.task t.id) ≡ none
  pub packs : codec.to_vec t ≡ ok packed
  pub lives : cfg.task_ttl ≡ suc ttl

module _ {B : Type 0} (codec : Codec B) (cfg : RediqConfig) (s : Server B) (db : s.Db) (t : Task)
    (now : ℕ) (packed : B) (ttl : ℕ) (new : IsNew codec cfg (s.view db) t packed ttl) where
  abbrev pub stored : Keyspace B
  stored = put (s.view db) (key Family.task t.id) (details packed t.queue (suc ttl))

  pub storing : replay s.order (store_task codec cfg t) (s.view db) ≡ (ok true, stored)
  unfolding replay effect
  storing = ground (
    arith,
    new.fresh,
    new.packs,
    new.lives,
    eq_refl t.id,
    put-put (s.view db) (key Family.task t.id)
        (some (hash (("data", bytes packed) ∷ ("queue", text t.queue) ∷ []), none))
        (details packed t.queue (suc ttl)),
  )

  pub after_storing :
      replay s.order (enqueue codec cfg t now) (s.view db)
      ≡ replay s.order (enqueue_after t now t.options.depends_on) stored
  unfolding enqueue
  after_storing =
      replay-bind s.order (store_task codec cfg t) (λ _. enqueue_after t now t.options.depends_on)
        (s.view db)
      ∙ rw storing refl

  -- The queue's name in the set of all queues.
  abbrev pub registered : Keyspace B → List String → Keyspace B
  registered ks queues =
      store_set ks (key Family.meta_queues "")
        (if contains queues t.queue then queues else queues ++ t.queue ∷ [])

  -- `enqueue` of a new task without dependencies, unique key or group and of the priority 50,
  -- where the set of queues and the queue's list are readable, stores its details with their
  -- expiry, registers its queue, appends its identifier to the queue's list, and changes nothing
  -- else.
  pub enqueue_plain :
      (queues waiting : List String)
      → t.options.depends_on ≡ none
      → t.options.unique_key ≡ none
      → t.options.group ≡ none
      → t.options.priority ≡ pos 50
      → as_set (s.view db (key Family.meta_queues "")) ≡ some queues
      → as_list (s.view db (key Family.queue t.queue)) ≡ some waiting
      → outcome s (enqueue codec cfg t now) db ≡ (
        ok t.id,
        store_list (registered stored queues) (key Family.queue t.queue) (waiting ++ t.id ∷ []),
      )
  unfolding replay effect
  enqueue_plain queues waiting d u g p q w =
      outcome-eq-replay s (enqueue codec cfg t now) db ∙ after_storing ∙ ground arith

  -- `enqueue` of a new task without dependencies, unique key or group and of another priority
  -- than 50 stores its details, registers its queue, and ranks its identifier in the priority
  -- queue by the priority; nothing else changes.
  pub enqueue_prioritized :
      (queues : List String) (ranks : List (String × ℤ))
      → t.options.depends_on ≡ none
      → t.options.unique_key ≡ none
      → t.options.group ≡ none
      → t.options.priority ≢ pos 50
      → as_set (s.view db (key Family.meta_queues "")) ≡ some queues
      → as_zset (s.view db (key Family.priority_queue t.queue)) ≡ some ranks
      → outcome s (enqueue codec cfg t now) db ≡ (
        ok t.id,
        store_zset
            (registered stored queues)
            (key Family.priority_queue t.queue)
            (rank t.id t.options.priority (unrank t.id ranks)),
      )
  unfolding replay effect
  enqueue_prioritized queues ranks d u g p q w =
      outcome-eq-replay s (enqueue codec cfg t now) db ∙ after_storing ∙ ground arith

  module _ (queues claims : List String) (unique : String) (d : t.options.depends_on ≡ none)
      (u : t.options.unique_key ≡ some unique)
      (q : as_set (s.view db (key Family.meta_queues "")) ≡ some queues)
      (c : as_set (s.view db (key Family.dedup t.queue)) ≡ some claims) where
    -- `enqueue` of a new task without dependencies whose unique key is taken in its queue is
    -- refused as a duplicate; its details are stored and its queue is registered, and nothing
    -- else changes.
    pub enqueue_duplicate :
        contains claims unique ≡ true
        → outcome s (enqueue codec cfg t now) db ≡ (
          err (validation "duplicate task detected: unique key '{}' already exists in queue '{}'"),
          registered stored queues,
        )
    unfolding replay effect
    enqueue_duplicate h =
        outcome-eq-replay s (enqueue codec cfg t now) db ∙ after_storing ∙ ground arith

    -- `enqueue` of a new task of the priority 50 without dependencies or group whose unique key
    -- is free stores its details, registers its queue, takes the key, and appends the identifier
    -- to the queue's list; nothing else changes.
    pub enqueue_unique :
        (waiting : List String)
        → contains claims unique ≡ false
        → t.options.group ≡ none
        → t.options.priority ≡ pos 50
        → as_list (s.view db (key Family.queue t.queue)) ≡ some waiting
        → outcome s (enqueue codec cfg t now) db ≡ (
          ok t.id,
          store_list
              (store_set
                (registered stored queues)
                (key Family.dedup t.queue)
                (claims ++ unique ∷ []))
              (key Family.queue t.queue)
              (waiting ++ t.id ∷ []),
        )
    unfolding replay effect
    enqueue_unique waiting h g p w =
        outcome-eq-replay s (enqueue codec cfg t now) db ∙ after_storing ∙ ground arith

  -- `enqueue_priority` refuses a priority out of the configured range, and then sends nothing.
  pub enqueue_priority_refused :
      (ltb_ℤ t.options.priority cfg.priority_range.0
          || ltb_ℤ cfg.priority_range.1 t.options.priority)
        ≡ true
      → outcome s (enqueue_priority codec cfg t) db
        ≡ (err (validation "Priority must be between {} and {}, got {}"), s.view db)
  unfolding replay enqueue_priority
  enqueue_priority_refused h = outcome-eq-replay s (enqueue_priority codec cfg t) db ∙ rw h refl

  module _ (ranks : List (String × ℤ))
      (z : as_zset (s.view db (key Family.priority_queue t.queue)) ≡ some ranks)
      (fits : (ltb_ℤ t.options.priority cfg.priority_range.0
          || ltb_ℤ cfg.priority_range.1 t.options.priority)
        ≡ false) where
    ranking :
        replay s.order (enqueue_priority codec cfg t) (s.view db)
        ≡ replay s.order (rank_stored t) stored
    unfolding enqueue_priority
    ranking = rw fits (
        replay-bind s.order (store_task codec cfg t) (λ _. rank_stored t) (s.view db)
        ∙ rw storing refl)

    abbrev pub ranked_in : Keyspace B
    ranked_in =
        store_zset stored (key Family.priority_queue t.queue)
          (rank t.id t.options.priority (unrank t.id ranks))

    -- `enqueue_priority` of a new task with a priority in range whose unique key is taken is
    -- refused as a duplicate, and its identifier stays in the priority queue all the same.
    pub enqueue_priority_duplicate :
        (claims : List String) (unique : String)
        → t.options.unique_key ≡ some unique
        → as_set (s.view db (key Family.dedup t.queue)) ≡ some claims
        → contains claims unique ≡ true
        → outcome s (enqueue_priority codec cfg t) db ≡ (
          err (validation "duplicate task detected: unique key '{}' already exists in queue '{}'"),
          ranked_in,
        )
    unfolding replay effect
    enqueue_priority_duplicate claims unique u c h =
        outcome-eq-replay s (enqueue_priority codec cfg t) db ∙ ranking ∙ ground arith

    -- `enqueue_priority` of a new task without a unique key, with a priority in the configured
    -- range, stores its details, ranks its identifier in the priority queue and registers the
    -- queue; nothing else changes.
    pub enqueue_priority_ranked :
        (queues : List String)
        → t.options.unique_key ≡ none
        → as_set (s.view db (key Family.meta_queues "")) ≡ some queues
        → outcome s (enqueue_priority codec cfg t) db ≡ (ok t.id, registered ranked_in queues)
    unfolding replay effect
    enqueue_priority_ranked queues u q =
        outcome-eq-replay s (enqueue_priority codec cfg t) db ∙ ranking ∙ ground arith

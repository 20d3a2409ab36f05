-- ===== src/Client.antt =====
-- The `Client` of client/builder.rs (rediq/src/client/builder.rs): enqueueing tasks. The
-- configuration, the serializers and the time are arguments; a second reading of the clock in one
-- function gives the same time.
pub mod Queues
pub mod Enqueueing
pub mod Managing
pub mod Batch
pub mod Delaying
use rediq.Prelude.{
  ℕ, ◌-◌, ◌^◌, ltb, ℤ, pos, negsuc, ◌+ℤ◌, ltb_ℤ, String, Bool, true, false, not, ◌||◌, Option, none,
  some, List, [], ◌∷◌, if◌then◌else◌,
}
use rediq.Errors.{Result, ok, err, validation}
use rediq.Keys.{Family, key}
use rediq.Redis.{text, bytes, Prog, done, pure, fail, ◌>>=◌, ◌>>◌}
use rediq.Redis.Client.{hset, expire, sadd, zadd, rpush, hincrby, dedup_add, set}
use rediq.Config.{RediqConfig}
use rediq.Task.{Task, as_secs}
use rediq.Codec.{Codec}

-- The cron crate: a crontab line parses, or not, to a schedule, which gives the next time after one.
pub record Cron : Type 0 where
  pub parse : String → Option (ℕ → Option ℕ)

-- `as i64` on a u64, and `i64::saturating_add`.
abbrev pub as_i64 : ℕ → ℤ
as_i64 n = if ltb n (2 ^ 63) then pos n else negsuc (2 ^ 64 - 1 - n)

unfoldable pub saturating_add : ℤ → ℤ → ℤ
unfolding ◌+ℤ◌
saturating_add a b =
    let sum = a +ℤ b in
    if ltb_ℤ (pos (2 ^ 63 - 1)) sum
    then pos (2 ^ 63 - 1)
    else if ltb_ℤ sum (negsuc (2 ^ 63 - 1))
    then negsuc (2 ^ 63 - 1)
    else sum

module _ {B : Type 0} where
  -- The first loop of `enqueue` over the dependencies, and the second.
  abbrev pub add_pending : String → List String → Prog B (Unit {0})
  add_pending id [] = pure tt
  add_pending id (dep ∷ deps) = do sadd (key Family.pending_deps id) dep; add_pending id deps

  abbrev pub add_dependent : String → List String → Prog B (Unit {0})
  add_dependent id [] = pure tt
  add_dependent id (dep ∷ deps) = do sadd (key Family.task_deps dep) id; add_dependent id deps

  abbrev pub claimed : Bool → Prog B (Unit {0})
  claimed true = pure tt
  claimed false =
      fail (validation "duplicate task detected: unique key '{}' already exists in queue '{}'")

  abbrev pub claim : String → Option String → Prog B (Unit {0})
  claim queue none = pure tt
  claim queue (some unique) = do added ← dedup_add (key Family.dedup queue) unique; claimed added

  -- A priority of 50 goes to the list, any other to the sorted set.
  abbrev pub place : Task → Prog B String
  place t =
      if ltb_ℤ t.options.priority (pos 50) || ltb_ℤ (pos 50) t.options.priority
      then (do zadd (key Family.priority_queue t.queue) t.id t.options.priority; pure t.id)
      else (do rpush (key Family.queue t.queue) t.id; pure t.id)

  abbrev pub place_in_group : Task → ℕ → Option String → Prog B String
  place_in_group t now none = place t
  place_in_group t now (some group) = do
    zadd (key Family.group group) t.id (pos now)
    hincrby (key Family.meta_group group) "count" 1
    pure t.id

  abbrev pub enqueue_free : Task → ℕ → Prog B String
  enqueue_free t now = do
    sadd (key Family.meta_queues "") t.queue
    claim t.queue t.options.unique_key
    place_in_group t now t.options.group

  abbrev pub enqueue_waiting : Task → List String → Prog B String
  enqueue_waiting t deps = do add_pending t.id deps; add_dependent t.id deps; pure t.id

  abbrev pub enqueue_after : Task → ℕ → Option (List String) → Prog B String
  enqueue_after t now none = enqueue_free t now
  enqueue_after t now (some []) = enqueue_free t now
  enqueue_after t now (some (dep ∷ deps)) = enqueue_waiting t (dep ∷ deps)

  -- The steps of `enqueue_priority` behind the storing of the details.
  abbrev pub rank_stored : Task → Prog B String
  rank_stored t = do
    zadd (key Family.priority_queue t.queue) t.id t.options.priority
    claim t.queue t.options.unique_key
    sadd (key Family.meta_queues "") t.queue
    pure t.id

module _ {B : Type 0} (codec : Codec B) (cfg : RediqConfig) where
  -- Storing the details, as each of the enqueueing functions does it.
  abbrev pub store_task : Task → Prog B Bool
  store_task t = do
    packed ← done (codec.to_vec t)
    hset (key Family.task t.id) (("data", bytes packed) ∷ ("queue", text t.queue) ∷ [])
    expire (key Family.task t.id) cfg.task_ttl

  unfoldable pub enqueue : Task → ℕ → Prog B String
  enqueue t now = do store_task t; enqueue_after t now t.options.depends_on

  abbrev pub enqueue_at : Task → ℕ → Option ℕ → Prog B String
  enqueue_at t now none = fail (validation "Delay must be set for delayed tasks")
  enqueue_at t now (some delay) = do
    store_task t
    zadd (key Family.delayed t.queue) t.id (saturating_add (pos now) (as_i64 (as_secs delay)))
    sadd (key Family.meta_queues "") t.queue
    pure t.id

  unfoldable pub enqueue_delayed : Task → ℕ → Prog B String
  enqueue_delayed t now = enqueue_at t now t.options.delay

  abbrev pub enqueue_ranked : Task → Prog B String
  enqueue_ranked t = do store_task t; rank_stored t

  unfoldable pub enqueue_priority : Task → Prog B String
  enqueue_priority t =
      if ltb_ℤ t.options.priority cfg.priority_range.0
        || ltb_ℤ cfg.priority_range.1 t.options.priority
      then fail (validation "Priority must be between {} and {}, got {}")
      else enqueue_ranked t

  abbrev pub enqueue_next : Task → Option ℕ → Prog B String
  enqueue_next t none = fail (validation "Could not calculate next scheduled time")
  enqueue_next t (some next) = do
    store_task t
    zadd (key Family.cron_queue t.queue) t.id (pos next)
    sadd (key Family.meta_queues "") t.queue
    pure t.id

  abbrev pub enqueue_schedule : Task → ℕ → Option (ℕ → Option ℕ) → Prog B String
  enqueue_schedule t now none = fail (validation "Invalid cron expression: {}")
  enqueue_schedule t now (some upcoming) = enqueue_next t (upcoming now)

  abbrev pub enqueue_line : Cron → Task → ℕ → Option String → Prog B String
  enqueue_line cron t now none = fail (validation "Cron task must have cron expression")
  enqueue_line cron t now (some line) = enqueue_schedule t now (cron.parse line)

  unfoldable pub enqueue_cron : Cron → Task → ℕ → Prog B String
  enqueue_cron cron t now = enqueue_line cron t now t.options.cron

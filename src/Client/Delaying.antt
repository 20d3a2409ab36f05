-- ===== src/Client/Delaying.antt =====
-- Delayed tasks (`enqueue_delayed` of rediq/src/client/builder.rs).
use rediq.Prelude.{
  ap, ℕ, ◌+◌, ◌<◌, ◌^◌, ℤ, pos, String, ◌≡◌, ◌∙◌, Option, none, some, List, true, arith, ◌+ℤ◌,
}
use rediq.Errors.{ok, err, validation}
use rediq.Keys.{Family, key}
use rediq.Redis.Keyspace.{as_zset, as_set, effect, store_zset, rank, unrank}
use rediq.Redis.Server.{Server, outcome, outcome-eq-replay, replay, replay-then}
use rediq.Config.{RediqConfig}
use rediq.Task.{Task, as_secs}
use rediq.Codec.{Codec}
use rediq.Client.{enqueue_at, enqueue_delayed, saturating_add, as_i64, store_task}
use rediq.Client.Enqueueing.{IsNew, stored, storing, registered}

-- The time at which a delayed task is due is the exact sum of now and the delay's seconds while
-- that sum is below 2^63.
pub saturating_add-fits :
    (now delay : ℕ)
    → now + delay < 2 ^ 63
    → saturating_add (pos now) (as_i64 delay) ≡ pos (now + delay)
unfolding saturating_add ◌+ℤ◌
saturating_add-fits now delay h = ground arith

module _ {B : Type 0} (codec : Codec B) (cfg : RediqConfig) (s : Server B) (db : s.Db) (t : Task)
    (now : ℕ) where
  -- A task without a delay is refused, and nothing is sent.
  pub enqueue_delayed_refused :
      t.options.delay ≡ none
      → outcome s (enqueue_delayed codec cfg t now) db
        ≡ (err (validation "Delay must be set for delayed tasks"), s.view db)
  unfolding replay enqueue_delayed
  enqueue_delayed_refused h =
      outcome-eq-replay s (enqueue_delayed codec cfg t now) db ∙ ground arith

  -- `enqueue_delayed` of a new task with a delay that ends within 63 bits stores its details,
  -- puts its identifier in the queue's delayed set at now plus the delay, and registers the
  -- queue; nothing else changes.
  pub enqueue_delayed_ranked :
      (delay : ℕ) (packed : B) (ttl : ℕ) (new : IsNew codec cfg (s.view db) t packed ttl)
      (queues : List String) (ranks : List (String × ℤ))
      → t.options.delay ≡ some delay
      → now + as_secs delay < 2 ^ 63
      → as_zset (s.view db (key Family.delayed t.queue)) ≡ some ranks
      → as_set (s.view db (key Family.meta_queues "")) ≡ some queues
      → outcome s (enqueue_delayed codec cfg t now) db ≡ (
        ok t.id,
        registered codec cfg s db t now packed ttl new
            (store_zset
              (stored codec cfg s db t now packed ttl new)
              (key Family.delayed t.queue)
              (rank t.id (pos (now + as_secs delay)) (unrank t.id ranks)))
            queues,
      )
  unfolding replay effect enqueue_delayed
  enqueue_delayed_ranked delay packed ttl new queues ranks d f z q =
      outcome-eq-replay s (enqueue_delayed codec cfg t now) db
      ∙ ap (λ (o : Option ℕ). replay s.order (enqueue_at codec cfg t now o) (s.view db)) d
      ∙ replay-then s.order (store_task codec cfg t) _ (s.view db) _ true
          (storing codec cfg s db t now packed ttl new)
      ∙ ground (arith, saturating_add-fits now (as_secs delay) f)

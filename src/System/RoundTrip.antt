-- ===== src/System/RoundTrip.antt =====
-- A task that a client enqueues and a worker takes (rediq/src/client/builder.rs,
-- rediq/src/server/worker.rs).
use rediq.Prelude.{
  ℕ, pos, String, ◌≡◌, sym, ap, ◌∙◌, Option, none, some, List, [], false, arith, eq_refl,
}
use rediq.Errors.{Result, ok}
use rediq.Keys.{Family, key}
use rediq.Redis.{◌>>◌}
use rediq.Redis.Keyspace.{Keyspace, present, as_list, as_set, effect}
use rediq.Redis.Server.{Server, outcome, outcome-eq-replay, replay, replay-then}
use rediq.Config.{RediqConfig}
use rediq.Task.{Task}
use rediq.Codec.{Codec, IsFaithful}
use rediq.Client.{enqueue}
use rediq.Client.Enqueueing.{IsNew, enqueue_plain}
use rediq.Worker.{dequeue_task, load_task, activated}

-- A task with no dependency, unique key or group, and of the default priority.
pub record IsPlain (t : Task) : Type 0 where
  pub alone : t.options.depends_on ≡ none
  pub common : t.options.unique_key ≡ none
  pub single : t.options.group ≡ none
  pub unranked : t.options.priority ≡ pos 50

module _ {B : Type 0} (codec : Codec B) (faithful : IsFaithful codec) (cfg : RediqConfig)
    (s : Server B) (db : s.Db) (t : Task) (now : ℕ) (packed : B) (ttl : ℕ)
    (new : IsNew codec cfg (s.view db) t packed ttl) (plain : IsPlain t) where
  -- With a faithful codec, a new task without dependencies, unique key or group and of the
  -- priority 50 that is enqueued in an empty queue, not paused, whose active tasks are a list and
  -- with the set of queues readable, is the task that `dequeue_task` gives next, as active since
  -- that time.
  pub enqueue-dequeue :
      (timeout later : ℕ) (queues a : List String)
      → as_set (s.view db (key Family.meta_queues "")) ≡ some queues
      → as_list (s.view db (key Family.queue t.queue)) ≡ some []
      → as_list (s.view db (key Family.active t.queue)) ≡ some a
      → present (s.view db (key Family.pause t.queue)) ≡ false
      → (outcome s (do enqueue codec cfg t now; dequeue_task codec timeout t.queue later) db).0
        ≡ ok (some (activated codec t later))
  unfolding replay effect dequeue_task load_task
  enqueue-dequeue timeout later queues a q w act p =
      let entering =
        sym (outcome-eq-replay s (enqueue codec cfg t now) db)
        ∙ enqueue_plain codec cfg s db t now packed ttl new queues [] plain.alone plain.common
            plain.single plain.unranked q w in
      ap (λ (o : Result (Option Task) × Keyspace B). o.0)
        (outcome-eq-replay s (do enqueue codec cfg t now; dequeue_task codec timeout t.queue later)
            db
          ∙ replay-then s.order (enqueue codec cfg t now)
              (λ _. dequeue_task codec timeout t.queue later) (s.view db) _ t.id entering)
      ∙ ground (
        arith,
        act,
        p,
        eq_refl t.queue,
        eq_refl t.id,
        faithful.unpacks t packed new.packs,
        faithful.as_bytes-bytes packed,
      )

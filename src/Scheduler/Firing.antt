-- ===== src/Scheduler/Firing.antt =====
-- Cron tasks: what the client stores and what the scheduler reads (rediq/src/client/builder.rs,
-- rediq/src/server/scheduler.rs).
use rediq.Prelude.{ℕ, ℤ, pos, String, ◌≡◌, ◌∙◌, Option, some, List, ◌∷◌, arith}
use rediq.Errors.{err, redis, wrong_type}
use rediq.Keys.{Family, key}
use rediq.Redis.{Value}
use rediq.Redis.Keyspace.{hash, as_zset, effect, scored}
use rediq.Redis.Server.{Server, outcome, outcome-eq-replay, replay}
use rediq.Config.{RediqConfig}
use rediq.Codec.{Codec}
use rediq.Client.{Cron}
use rediq.Scheduler.{check_cron_tasks}

module _ {B : Type 0} (codec : Codec B) (cfg : RediqConfig) (cron : Cron) (fresh : String → String)
    (s : Server B) (db : s.Db) (queue : String) (queues : List String) (now : ℕ) where
  -- If the first of the due cron tasks of the first queue has its details in a hash, as
  -- `enqueue_cron` stores them, `check_cron_tasks` fails with the wrong type and changes nothing.
  pub check_cron_fails :
      (id : String) (h : List (String × Value B)) (t : Option ℕ) (ranks : List (String × ℤ))
      (rest : List String)
      → as_zset (s.view db (key Family.cron_queue queue)) ≡ some ranks
      → scored (some (pos 0)) (pos now) ranks ≡ id ∷ rest
      → s.view db (key Family.task id) ≡ some (hash h, t)
      → outcome s (check_cron_tasks codec cfg cron fresh (queue ∷ queues) now) db
        ≡ (err (redis wrong_type), s.view db)
  unfolding replay effect check_cron_tasks
  check_cron_fails id h t ranks rest z d v =
      outcome-eq-replay s (check_cron_tasks codec cfg cron fresh (queue ∷ queues) now) db
      ∙ ground arith

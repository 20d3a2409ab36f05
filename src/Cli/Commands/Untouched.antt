-- ===== src/Cli/Commands/Untouched.antt =====
-- The commands that only show something change nothing (rediq-cli/src/commands).
use rediq.Prelude.{ℕ, String, Bool, true, false, ◌≡◌, ap, ◌∙◌, List, [], ◌∷◌}
use rediq.Errors.{Result, ok, err}
use rediq.Redis.{Prog}
use rediq.Redis.Keyspace.{Keyspace}
use rediq.Redis.Server.{Server, outcome, outcome-eq-replay}
use rediq.Redis.Reading.{Reads, done-Reads, bind-Reads, attempt-Reads}
use rediq.Codec.{Codec}
use rediq.Inspector
use rediq.Inspector.{TaskInfo, queue_stats, get_task, get_worker}
use rediq.Inspector.Reading.{
  queue_stats-Reads, list_queues-Reads, list_workers-Reads, list_tasks-Reads, get_task-Reads,
  get_worker-Reads,
}
use rediq.Cli.Commands.{Line}
use rediq.Cli.Commands.Queues
use rediq.Cli.Commands.Tasks
use rediq.Cli.Commands.Workers
use rediq.Cli.Commands.Purging.{empty_queues, purge_workers, purge_queues, handle_purge}
use rediq.Cli.Utils.{RedisConnectionInfo}

module _ {B : Type 0} (codec : Codec B) (order : List String → List String) where
  listed-Reads :
      (queue : String) (r : Result (List TaskInfo)) → Reads order (Tasks.listed codec queue r)
  listed-Reads queue (err e) = done-Reads order (ok _)
  listed-Reads queue (ok []) = done-Reads order (ok _)
  listed-Reads queue (ok (t ∷ ts)) =
      bind-Reads order (queue_stats codec queue) _ (queue_stats-Reads codec order queue)
        (λ s. done-Reads order (ok _))

  empty_queues-Reads : (names : List String) → Reads order (empty_queues codec names)
  empty_queues-Reads [] = done-Reads order (ok [])
  empty_queues-Reads (q ∷ qs) =
      bind-Reads order (queue_stats codec q) _ (queue_stats-Reads codec order q) (λ s.
        bind-Reads order (empty_queues codec qs) _ (empty_queues-Reads qs)
          (λ l. done-Reads order (ok _)))

  purge_workers-Reads :
      (on : Bool) (info : RedisConnectionInfo) (now : ℕ)
      → Reads order (purge_workers codec on info now)
  purge_workers-Reads false info now = done-Reads order (ok [])
  purge_workers-Reads true info now =
      bind-Reads order (Inspector.list_workers codec) _ (list_workers-Reads codec order)
        (λ ws. done-Reads order (ok _))

  purge_queues-Reads :
      (on : Bool) (info : RedisConnectionInfo) → Reads order (purge_queues codec on info)
  purge_queues-Reads false info = done-Reads order (ok [])
  purge_queues-Reads true info =
      bind-Reads order Inspector.list_queues _ (list_queues-Reads order) (λ names.
        bind-Reads order (empty_queues codec names) _ (empty_queues-Reads names)
          (λ l. done-Reads order (ok _)))

  handle_purge-Reads :
      (url : String) (workers queues all : Bool) (now : ℕ)
      → Reads order (handle_purge codec url workers queues all now)
  unfolding handle_purge
  handle_purge-Reads url workers queues true now = done-Reads order (ok _)
  handle_purge-Reads url workers queues false now =
      bind-Reads order (purge_workers codec workers _ now) _ (purge_workers-Reads workers _ now)
        (λ stale.
          bind-Reads order (purge_queues codec queues _) _ (purge_queues-Reads queues _)
            (λ empty. done-Reads order (ok _)))

-- A look at the data: listing, inspecting, statistics or purging.
pub data Look : Type 0 where
  all_queues all_workers : Look
  one_queue one_worker one_task statistics : String → Look
  waiting_tasks : String → ℕ → Look
  purging : String → Bool → Bool → Bool → ℕ → Look

module _ {B : Type 0} (codec : Codec B) (debug : List String → String) where
  abbrev pub look : Look → Prog B (List Line)
  look all_queues = Queues.list_queues codec
  look (one_queue name) = Queues.inspect_queue codec name
  look (statistics name) = Queues.show_stats codec name
  look all_workers = Workers.list_workers codec debug
  look (one_worker id) = Workers.inspect_worker codec debug id
  look (waiting_tasks queue limit) = Tasks.list_tasks codec queue limit
  look (one_task id) = Tasks.inspect_task codec id
  look (purging url ws qs all now) = handle_purge codec url ws qs all now

  look-Reads : (order : List String → List String) (l : Look) → Reads order (look l)
  unfolding Queues.list_queues Queues.inspect_queue Queues.show_stats Workers.list_workers
      Workers.inspect_worker Tasks.list_tasks Tasks.inspect_task
  look-Reads order all_queues =
      bind-Reads order Inspector.list_queues _ (list_queues-Reads order)
        (λ q. done-Reads order (ok _))
  look-Reads order (one_queue name) =
      bind-Reads order (queue_stats codec name) _ (queue_stats-Reads codec order name)
        (λ s. done-Reads order (ok _))
  look-Reads order (statistics name) =
      bind-Reads order (queue_stats codec name) _ (queue_stats-Reads codec order name)
        (λ s. done-Reads order (ok _))
  look-Reads order all_workers =
      attempt-Reads order (Inspector.list_workers codec) _ (list_workers-Reads codec order)
        (λ r. done-Reads order (ok _))
  look-Reads order (one_worker id) =
      attempt-Reads order (get_worker codec id) _ (get_worker-Reads codec order id)
        (λ r. done-Reads order (ok _))
  look-Reads order (waiting_tasks queue limit) =
      attempt-Reads order (Inspector.list_tasks codec queue limit) _
        (list_tasks-Reads codec order queue limit)
        (λ r.
          bind-Reads order (Tasks.listed codec queue r) _ (listed-Reads codec order queue r)
            (λ l. done-Reads order (ok _)))
  look-Reads order (one_task id) =
      attempt-Reads order (get_task codec id) _ (get_task-Reads codec order id)
        (λ r. done-Reads order (ok _))
  look-Reads order (purging url ws qs all now) = handle_purge-Reads codec order url ws qs all now

  -- No command that lists or inspects queues, workers or tasks, shows statistics, or looks for
  -- what to purge changes any data, whatever the data are and whether it fails or not.
  pub look_untouched : (l : Look) (s : Server B) (db : s.Db) → (outcome s (look l) db).1 ≡ s.view db
  look_untouched l s db =
      ap (λ (o : Result (List Line) × Keyspace B). o.1) (outcome-eq-replay s (look l) db)
      ∙ look-Reads s.order l (s.view db)

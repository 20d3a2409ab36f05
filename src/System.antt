-- ===== src/System.antt =====
-- The whole system: clients, workers, their heartbeats, the scheduler's moves and aggregations and the
-- janitor, that run on one server at the same time. A step is the start of an operation
-- (rediq/src/client, server/worker.rs, server/scheduler.rs, server/janitor.rs), one command of one that runs, or the end of one: it has finished, or its
-- process has died.
pub mod Proper
pub mod ProperQueues
pub mod ProperScripts
pub mod ProperDequeue
pub mod ProperWorker
pub mod ProperLoops
pub mod ProperChecks
pub mod ProperDependencies
pub mod Steps
pub mod RoundTrip
pub mod Priorities
pub mod Waiting
pub mod Fifo
use rediq.Prelude.{ℕ, String, List, ◌∷◌, ◌++◌, Option}
use rediq.Errors.{Result}
use rediq.Redis.{Prog, Command, Reply, call, ◌>>=◌, ◌>>◌, pure}
use rediq.Redis.Keyspace.{Keyspace, effect}
use rediq.Config.{RediqConfig}
use rediq.Task.{Task}
use rediq.Codec.{Codec}
use rediq.Client.{Cron, enqueue, enqueue_delayed, enqueue_priority, enqueue_cron}
use rediq.Client.Queues.{
  pause_queue, resume_queue, flush_queue, cancel_task_with_unique, retry_task,
}
use rediq.Worker.{dequeue_task_any, process_task, Handled}
use rediq.Scheduler.{check_retry_tasks, check_delayed_tasks}
use rediq.Scheduler.Aggregation.{check_aggregation}
use rediq.Worker.Looping.{WorkerRound, run_worker}
use rediq.Worker.Membership.{Settings, update_heartbeat}
use rediq.Inspector.{stop_worker}
use rediq.Aggregator.{AggregatorManager}
use rediq.Janitor.{JanitorConfig, cleanup}
use rediq.Redis.Scan.{Scans}

pub data Operation : Type 0 where
  enqueues delays : Task → ℕ → Operation
  ranks : Task → Operation
  schedules : Task → ℕ → Operation
  pauses resumes flushes : String → Operation
  cancels : String → String → Option String → Operation
  retries : String → String → Operation
  dequeues : ℕ → String → ℕ → Operation
  processes : String → Task → Result (Unit {0}) → Handled → ℕ → ℕ → Operation
  moves_retries moves_delayed : List String → ℕ → Operation
  works : String → ℕ → Settings → ℕ → List WorkerRound → Operation
  beats : String → ℕ → ℕ → Operation
  stops : String → Operation
  aggregates : Option AggregatorManager → Scans → ℕ → Operation
  cleans : JanitorConfig → Scans → ℕ → Operation

abbrev pub forget : {B A : Type 0} → Prog B A → Prog B (Unit {0})
forget p = do p; pure tt

pub record World (B : Type 0) : Type 0 where
  pub data_held : Keyspace B
  pub running : List (Prog B (Unit {0}))

module _ {B : Type 0} (codec : Codec B) (cfg : RediqConfig) (cron : Cron) where
  abbrev pub program : Operation → Prog B (Unit {0})
  program (Operation.enqueues t now) = forget (enqueue codec cfg t now)
  program (Operation.delays t now) = forget (enqueue_delayed codec cfg t now)
  program (Operation.ranks t) = forget (enqueue_priority codec cfg t)
  program (Operation.schedules t now) = forget (enqueue_cron codec cfg cron t now)
  program (Operation.pauses queue) = pause_queue queue
  program (Operation.resumes queue) = resume_queue queue
  program (Operation.flushes queue) = forget (flush_queue queue)
  program (Operation.cancels id queue unique) = forget (cancel_task_with_unique id queue unique)
  program (Operation.retries id queue) = forget (retry_task codec cfg id queue)
  program (Operation.dequeues timeout queue now) =
      forget (dequeue_task_any codec cfg timeout queue now)
  program (Operation.processes worker_id t before handled instant now) =
      process_task codec cfg worker_id t before handled instant now
  program (Operation.moves_retries queues now) = check_retry_tasks queues now
  program (Operation.moves_delayed queues now) = check_delayed_tasks queues now
  program (Operation.works worker_id timeout settings now rounds) =
      forget (run_worker codec cfg worker_id timeout settings now rounds)
  program (Operation.beats worker_id ttl now) = update_heartbeat worker_id ttl now
  program (Operation.stops worker_id) = forget (stop_worker worker_id)
  program (Operation.aggregates manager scans fuel) =
      forget (check_aggregation codec manager scans fuel)
  program (Operation.cleans janitor scans fuel) = forget (cleanup janitor scans fuel)

module _ {B : Type 0} (codec : Codec B) (cfg : RediqConfig) (cron : Cron)
    (order : List String → List String) where
  pub data Step : World B → World B → Type 0 where
    start :
        (o : Operation) (ks : Keyspace B) (ps : List (Prog B (Unit {0})))
        → Step
            (record { data_held = ks; running = ps })
            (record { data_held = ks; running = program codec cfg cron o ∷ ps })
    send_next :
        (before after : List (Prog B (Unit {0}))) (c : Command B)
        (k : Result (Reply c) → Prog B (Unit {0})) (ks : Keyspace B)
        → Step
            (record { data_held = ks; running = before ++ call c k ∷ after })
            (record {
              data_held = (effect order c ks).1;
              running = before ++ k (effect order c ks).0 ∷ after;
            })
    stop :
        (before after : List (Prog B (Unit {0}))) (p : Prog B (Unit {0})) (ks : Keyspace B)
        → Step
            (record { data_held = ks; running = before ++ p ∷ after })
            (record { data_held = ks; running = before ++ after })

  pub data Reaches (w : World B) : World B → Type 0 where
    here : Reaches w w
    next : {v u : World B} → Reaches w v → Step v u → Reaches w u

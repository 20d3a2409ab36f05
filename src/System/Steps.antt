-- ===== src/System/Steps.antt =====
-- Invariants of all interleavings of operations.
use rediq.Prelude.{String, List, [], ◌∷◌, ◌++◌}
use rediq.Errors.{Result}
use rediq.Redis.{Prog, Command, Reply, call, pure}
use rediq.Redis.Keyspace.{effect}
use rediq.Redis.Server.{empty}
use rediq.Redis.Kinds.{IsTyped, Proper, effect-IsTyped}
use rediq.Redis.Sends.{Sends-bind}
use rediq.Config.{RediqConfig}
use rediq.Codec.{Codec}
use rediq.Client.{Cron, enqueue, enqueue_delayed, enqueue_priority, enqueue_cron}
use rediq.Client.Queues.{flush_queue, cancel_task_with_unique, retry_task}
use rediq.Worker.{dequeue_task_any}
use rediq.System.{
  Operation, program, World, Step, start, send_next, stop, Reaches, here, next, forget,
}
use rediq.System.Proper.{
  IsProper, enqueue-IsProper, enqueue_delayed-IsProper, enqueue_priority-IsProper,
  enqueue_cron-IsProper, pause_queue-IsProper, resume_queue-IsProper, flush_queue-IsProper,
}
use rediq.System.ProperQueues.{cancel_task_with_unique-IsProper, retry_task-IsProper}
use rediq.System.ProperDequeue.{dequeue_task_any-IsProper}
use rediq.System.ProperScripts.{check_retry_tasks-IsProper, check_delayed_tasks-IsProper}
use rediq.System.ProperWorker.{process_task-IsProper}
use rediq.System.ProperLoops.{run_worker-IsProper, update_heartbeat-IsProper, stop_worker-IsProper}
use rediq.System.ProperChecks.{check_aggregation-IsProper, cleanup-IsProper}
use rediq.Worker.Looping.{run_worker}
use rediq.Inspector.{stop_worker}
use rediq.Scheduler.Aggregation.{check_aggregation}
use rediq.Janitor.{cleanup}

module _ {B A : Type 0} where
  forget-IsProper : (p : Prog B A) → IsProper p → IsProper (forget p)
  forget-IsProper p h = Sends-bind Proper p (λ _. pure tt) h (λ _. tt)

module _ {B : Type 0} where
  abbrev AreProper : List (Prog B (Unit {0})) → Type 0
  AreProper [] = Unit
  AreProper (p ∷ ps) = IsProper p × AreProper ps

  after_step :
      (before after : List (Prog B (Unit {0}))) (c : Command B)
      (k : Result (Reply c) → Prog B (Unit {0})) (r : Result (Reply c))
      → AreProper (before ++ call c k ∷ after)
      → AreProper (before ++ k r ∷ after)
  after_step [] after c k r (h, t) = (h.1 r, t)
  after_step (p ∷ before) after c k r (h, t) = (h, after_step before after c k r t)

  next_Proper :
      (before after : List (Prog B (Unit {0}))) (c : Command B)
      (k : Result (Reply c) → Prog B (Unit {0}))
      → AreProper (before ++ call c k ∷ after)
      → Proper c
  next_Proper [] after c k (h, t) = h.0
  next_Proper (p ∷ before) after c k (h, t) = next_Proper before after c k t

  after_stop :
      (before after : List (Prog B (Unit {0}))) (p : Prog B (Unit {0}))
      → AreProper (before ++ p ∷ after)
      → AreProper (before ++ after)
  after_stop [] after p (h, t) = t
  after_stop (q ∷ before) after p (h, t) = (h, after_stop before after p t)

module _ {B : Type 0} (codec : Codec B) (cfg : RediqConfig) (cron : Cron)
    (order : List String → List String) where
  -- Every operation sends only commands that suit the types of their keys, whatever the replies are.
  pub program-IsProper : (o : Operation) → IsProper (program codec cfg cron o)
  program-IsProper (Operation.enqueues t now) =
      forget-IsProper (enqueue codec cfg t now) (enqueue-IsProper codec cfg t now)
  program-IsProper (Operation.delays t now) =
      forget-IsProper (enqueue_delayed codec cfg t now) (enqueue_delayed-IsProper codec cfg t now)
  program-IsProper (Operation.ranks t) =
      forget-IsProper (enqueue_priority codec cfg t) (enqueue_priority-IsProper codec cfg t)
  program-IsProper (Operation.schedules t now) =
      forget-IsProper (enqueue_cron codec cfg cron t now)
        (enqueue_cron-IsProper codec cfg cron t now)
  program-IsProper (Operation.pauses queue) = pause_queue-IsProper B queue
  program-IsProper (Operation.resumes queue) = resume_queue-IsProper B queue
  program-IsProper (Operation.flushes queue) =
      forget-IsProper (flush_queue queue) (flush_queue-IsProper B queue)
  program-IsProper (Operation.cancels id queue unique) =
      forget-IsProper (cancel_task_with_unique id queue unique)
        (cancel_task_with_unique-IsProper B id queue unique)
  program-IsProper (Operation.retries id queue) =
      forget-IsProper (retry_task codec cfg id queue) (retry_task-IsProper codec cfg id queue)
  program-IsProper (Operation.dequeues timeout queue now) =
      forget-IsProper (dequeue_task_any codec cfg timeout queue now)
        (dequeue_task_any-IsProper codec cfg timeout queue now)
  program-IsProper (Operation.processes worker_id t before handled instant now) =
      process_task-IsProper codec cfg worker_id t before handled instant now
  program-IsProper (Operation.moves_retries queues now) = check_retry_tasks-IsProper B queues now
  program-IsProper (Operation.moves_delayed queues now) = check_delayed_tasks-IsProper B queues now
  program-IsProper (Operation.works worker_id timeout settings now rounds) =
      forget-IsProper (run_worker codec cfg worker_id timeout settings now rounds)
        (run_worker-IsProper codec cfg worker_id timeout settings now rounds)
  program-IsProper (Operation.beats worker_id ttl now) =
      update_heartbeat-IsProper B worker_id ttl now
  program-IsProper (Operation.stops worker_id) =
      forget-IsProper (stop_worker worker_id) (stop_worker-IsProper B worker_id)
  program-IsProper (Operation.aggregates manager scans fuel) =
      forget-IsProper (check_aggregation codec manager scans fuel)
        (check_aggregation-IsProper codec manager scans fuel)
  program-IsProper (Operation.cleans janitor scans fuel) =
      forget-IsProper (cleanup janitor scans fuel) (cleanup-IsProper B janitor scans fuel)

  abbrev IsSound : World B → Type 0
  IsSound w = IsTyped w.data_held × AreProper w.running

  Step-IsSound : {w v : World B} → Step codec cfg cron order w v → IsSound w → IsSound v
  Step-IsSound (start o ks ps) (t, h) = (t, (program-IsProper o, h))
  Step-IsSound (send_next before after c k ks) (t, h) = (
    effect-IsTyped order c ks (next_Proper before after c k h) t,
    after_step before after c k (effect order c ks).0 h,
  )
  Step-IsSound (stop before after p ks) (t, h) = (t, after_stop before after p h)

  Reaches-IsSound : {w v : World B} → Reaches codec cfg cron order w v → IsSound w → IsSound v
  Reaches-IsSound here h = h
  Reaches-IsSound (next r s) h = Step-IsSound s (Reaches-IsSound r h)

  -- Whatever operations of clients, workers, the scheduler and the janitor, besides the cron
  -- check and batches, start on an empty server, however their commands interleave, and wherever
  -- some of them stop for good, every key holds the type of data of its family.
  pub reached-IsTyped :
      (w : World B)
      → Reaches codec cfg cron order (record { data_held = empty; running = [] }) w
      → IsTyped w.data_held
  reached-IsTyped w r = (Reaches-IsSound r ((λ k. tt), tt)).0

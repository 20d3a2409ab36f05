-- ===== src/System/ProperLoops.antt =====
-- The lives of workers send only commands that suit the types of their keys
-- (rediq/src/server/worker.rs).
use rediq.Prelude.{ℕ, String, List, [], ◌∷◌, Option, none, some, Bool, true, false, refl}
use rediq.Errors.{Result, ok, err}
use rediq.Redis.{Prog, done, attempt}
use rediq.Redis.Kinds.{Proper}
use rediq.Redis.Client.{ttl}
use rediq.Redis.Sends.{Sends-bind, Sends-attempt}
use rediq.Config.{RediqConfig}
use rediq.Task.{Task}
use rediq.Codec.{Codec}
use rediq.Worker.{next_queue, dequeue_task_any, process_task}
use rediq.Worker.Membership.{Settings, add_queues, update_heartbeat, register, unregister}
use rediq.Worker.Looping.{
  WorkerRound, Behaviour, returns, panics, serve_dequeued, serve_task, serve_round, if_on, leave,
  serve_turn, task_loop, run_worker,
}
use rediq.Inspector.{stop_worker}
use rediq.System.Proper.{IsProper}
use rediq.System.ProperDequeue.{dequeue_task_any-IsProper}
use rediq.System.ProperWorker.{process_task-IsProper}
use rediq.System.ProperScripts.{report-IsProper}
use rediq.Progress.{new_progress, default_progress, report}

module _ (B : Type 0) where
  pub update_heartbeat-IsProper :
      (id : String) (ttl now : ℕ) → IsProper (update_heartbeat {B = B} id ttl now)
  unfolding update_heartbeat
  update_heartbeat-IsProper id ttl now =
      (refl, elim [ ok _ ↦ (tt, elim [ ok _ ↦ tt | err _ ↦ tt ]) | err _ ↦ tt ])

  pub stop_worker-IsProper : (id : String) → IsProper (stop_worker {B = B} id)
  unfolding stop_worker
  stop_worker-IsProper id =
      (tt, elim [ ok true ↦ (tt, elim [ ok _ ↦ tt | err _ ↦ tt ]) | ok false ↦ tt | err _ ↦ tt ])

  add_queues-IsProper : (queues : List String) → IsProper (add_queues {B = B} queues)
  add_queues-IsProper [] = tt
  add_queues-IsProper (q ∷ qs) = (refl, elim [ ok _ ↦ add_queues-IsProper qs | err _ ↦ tt ])

  unregister-IsProper : (id : String) → IsProper (unregister {B = B} id)
  unfolding unregister
  unregister-IsProper id = (
    refl,
    elim [
      | ok _ ↦ (tt, elim [ ok _ ↦ (tt, elim [ ok _ ↦ tt | err _ ↦ tt ]) | err _ ↦ tt ])
      | err _ ↦ tt
    ],
  )

module _ {B : Type 0} (codec : Codec B) where
  register-IsProper : (id : String) (s : Settings) (now : ℕ) → IsProper (register codec id s now)
  unfolding register
  register-IsProper id s now = Sends-bind Proper (done (codec.worker_to_vec _)) _ tt (λ packed. (
    refl,
    elim [
      | ok _ ↦ (
        refl,
        elim [
          | ok _ ↦
              Sends-bind Proper (add_queues s.queues) _ (add_queues-IsProper B s.queues)
                (λ _. update_heartbeat-IsProper B id s.heartbeat_ttl now)
          | err _ ↦ tt
        ],
      )
      | err _ ↦ tt
    ],
  ))

module _ {B : Type 0} (codec : Codec B) (cfg : RediqConfig) (worker_id : String) (timeout : ℕ) where
  serve_task-IsProper :
      (r : WorkerRound) (t : Task) (b : Behaviour)
      → IsProper (serve_task codec cfg worker_id timeout r t b)
  serve_task-IsProper r t (returns before handled) =
      let p = process_task codec cfg worker_id t before handled r.instant r.now in
      Sends-bind Proper (attempt p) _
        (Sends-attempt Proper p
          (process_task-IsProper codec cfg worker_id t before handled r.instant r.now))
        (λ _. tt)
  serve_task-IsProper r t panics =
      let p = report {B = B} (new_progress t.id default_progress r.instant) 0 r.instant r.now in
      Sends-bind Proper (attempt p) _
        (Sends-attempt Proper p
          (report-IsProper B (new_progress t.id default_progress r.instant) 0 r.instant r.now))
        (λ _. tt)

  serve_dequeued-IsProper :
      (r : WorkerRound) (o : Result (Option Task))
      → IsProper (serve_dequeued codec cfg worker_id timeout r o)
  serve_dequeued-IsProper r (ok (some t)) = serve_task-IsProper r t (r.behaviour t)
  serve_dequeued-IsProper r (ok none) = tt
  serve_dequeued-IsProper r (err e) = tt

  serve_round-IsProper :
      (r : WorkerRound) (queue : String)
      → IsProper (serve_round codec cfg worker_id timeout r queue)
  unfolding serve_round
  serve_round-IsProper r queue =
      let p = dequeue_task_any codec cfg timeout queue r.now in
      Sends-bind Proper (attempt p) _
        (Sends-attempt Proper p (dequeue_task_any-IsProper codec cfg timeout queue r.now))
        (serve_dequeued-IsProper r)

  if_on-IsProper :
      (p : Prog B (Option (Unit {0}))) (b : Option Bool) → IsProper p → IsProper (if_on p b)
  if_on-IsProper p none h = tt
  if_on-IsProper p (some true) h = h
  if_on-IsProper p (some false) h = tt

  leave-IsProper : (r : Result (Option (Unit {0}))) → IsProper {B = B} (leave worker_id r)
  leave-IsProper (ok none) = tt
  leave-IsProper (ok (some u)) =
      Sends-bind Proper (attempt (unregister {B = B} worker_id)) _
        (Sends-attempt Proper (unregister {B = B} worker_id) (unregister-IsProper B worker_id))
        (λ _. tt)
  leave-IsProper (err e) =
      Sends-bind Proper (attempt (unregister {B = B} worker_id)) _
        (Sends-attempt Proper (unregister {B = B} worker_id) (unregister-IsProper B worker_id))
        (λ _. tt)

  serve_turn-IsProper :
      (p : Prog B (Option (Unit {0}))) (r : WorkerRound) (o : Option String)
      → IsProper p
      → IsProper (serve_turn codec cfg worker_id timeout p r o)
  serve_turn-IsProper p r none h = tt
  serve_turn-IsProper p r (some q) h =
      Sends-bind Proper (serve_round codec cfg worker_id timeout r q) _ (serve_round-IsProper r q)
        (λ b. if_on-IsProper p b h)

  pub task_loop-IsProper :
      (queues : List String) (index : ℕ) (rs : List WorkerRound)
      → IsProper (task_loop codec cfg worker_id timeout queues index rs)
  unfolding task_loop
  task_loop-IsProper queues index [] = tt
  task_loop-IsProper queues index (r ∷ rs) =
      serve_turn-IsProper _ r (next_queue queues index).0
        (task_loop-IsProper queues (next_queue queues index).1 rs)

  pub run_worker-IsProper :
      (s : Settings) (started : ℕ) (rs : List WorkerRound)
      → IsProper (run_worker codec cfg worker_id timeout s started rs)
  unfolding run_worker
  run_worker-IsProper s started rs =
      let loop = task_loop codec cfg worker_id timeout s.queues 0 rs in
      Sends-bind Proper (register codec worker_id s started) _
        (register-IsProper codec worker_id s started)
        (λ _.
          Sends-bind Proper (attempt loop) _
            (Sends-attempt Proper loop (task_loop-IsProper s.queues 0 rs)) leave-IsProper)

-- ===== src/Worker/Looping.antt =====
-- The life of a worker (rediq/src/server/worker.rs): it joins, serves its queues in turn until it is
-- told to stop, and leaves, or until a hook or a handler panics. The heartbeat that runs beside it is `update_heartbeat` again and again.
use rediq.Prelude.{ℕ, String, Bool, true, false, Option, none, some, List, [], ◌∷◌}
use rediq.Errors.{Error, Result, ok, err, shutdown}
use rediq.Redis.{Prog, fail, pure, attempt, ◌>>=◌, ◌>>◌}
use rediq.Config.{RediqConfig}
use rediq.Task.{Task}
use rediq.Codec.{Codec}
use rediq.Progress.{new_progress, default_progress, report}
use rediq.Worker.{next_queue, dequeue_task_any, process_task, Handled}
use rediq.Worker.Membership.{Settings, register, unregister}

-- What hooks and handler do with a task: they return, or one of them panics.
pub data Behaviour : Type 0 where
  returns : Result (Unit {0}) → Handled → Behaviour
  panics : Behaviour

-- What the outside gives to one round: the clocks, and what becomes of a task.
pub record WorkerRound : Type 0 where
  pub now : ℕ
  pub instant : ℕ
  pub behaviour : Task → Behaviour

-- Whether the loop goes on behind a failing dequeue. It waits for a while then.
abbrev pub goes_on : Error → Bool
goes_on shutdown = false
goes_on _ = true

abbrev pub if_on :
    {B : Type 0} → Prog B (Option (Unit {0})) → Option Bool → Prog B (Option (Unit {0}))
if_on rest none = pure none
if_on rest (some true) = rest
if_on rest (some false) = pure (some tt)

-- The worker leaves, unless it has panicked. A failing `unregister` is logged.
abbrev pub leave : {B : Type 0} → String → Result (Option (Unit {0})) → Prog B (Option (Unit {0}))
leave worker_id (ok none) = pure none
leave worker_id (ok (some u)) = do attempt (unregister worker_id); pure (some u)
leave worker_id (err e) = do attempt (unregister worker_id); fail e

module _ {B : Type 0} (codec : Codec B) (cfg : RediqConfig) (worker_id : String) (timeout : ℕ) where
  -- `process_task`, a failure of which is logged. When a hook or the handler panics, no more than the
  -- progress 0 is written by then; nothing catches the panic, which ends the worker: `none`.
  abbrev pub serve_task : WorkerRound → Task → Behaviour → Prog B (Option Bool)
  serve_task r t (returns before handled) = do
    attempt (process_task codec cfg worker_id t before handled r.instant r.now)
    pure (some true)
  serve_task r t panics = do
    attempt (report (new_progress t.id default_progress r.instant) 0 r.instant r.now)
    pure none

  -- The match on what was dequeued.
  abbrev pub serve_dequeued : WorkerRound → Result (Option Task) → Prog B (Option Bool)
  serve_dequeued r (ok (some t)) = serve_task r t (r.behaviour t)
  serve_dequeued r (ok none) = pure (some true)
  serve_dequeued r (err e) = pure (some (goes_on e))

  unfoldable pub serve_round : WorkerRound → String → Prog B (Option Bool)
  serve_round r queue = do
    popped ← attempt (dequeue_task_any codec cfg timeout queue r.now)
    serve_dequeued r popped

  -- A round on the queue whose turn it is. Without queues the remainder of the division panics: `none`.
  abbrev pub serve_turn :
      Prog B (Option (Unit {0})) → WorkerRound → Option String → Prog B (Option (Unit {0}))
  serve_turn rest r none = pure none
  serve_turn rest r (some queue) = do on ← serve_round r queue; if_on rest on

  -- The rounds before the shutdown flag is seen.
  unfoldable pub task_loop : List String → ℕ → List WorkerRound → Prog B (Option (Unit {0}))
  task_loop queues index [] = pure (some tt)
  task_loop queues index (r ∷ rs) =
      serve_turn (task_loop queues (next_queue queues index).1 rs) r (next_queue queues index).0

  -- `run`.
  unfoldable pub run_worker : Settings → ℕ → List WorkerRound → Prog B (Option (Unit {0}))
  run_worker settings started rounds = do
    register codec worker_id settings started
    result ← attempt (task_loop settings.queues 0 rounds)
    leave worker_id result

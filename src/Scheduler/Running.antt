-- ===== src/Scheduler/Running.antt =====
-- The loop of the scheduler (rediq/src/server/scheduler.rs), and its part in dependencies. The loop has
-- no bound: a list of rounds is the first of them, as its fuel, and `none` says that it has not ended
-- within them. Each round has its time, its scans, the fuel of its aggregation, and the shutdown flag
-- as the round reads it. A check that fails is logged.
use rediq.Prelude.{
  ℕ, ◌+◌, ◌%◌, ◌^◌, ◌==◌, Bool, String, Option, none, some, List, [], ◌∷◌, if◌then◌else◌,
}
use rediq.Errors.{Result, ok, err}
use rediq.Redis.{Prog, pure, attempt, ◌>>=◌, ◌>>◌}
use rediq.Redis.Scan.{Scans}
use rediq.Config.{RediqConfig}
use rediq.Task.{Task}
use rediq.Codec.{Codec}
use rediq.Client.{Cron}
use rediq.Aggregator.{AggregatorManager}
use rediq.Dependencies.{register, check_dependents}
use rediq.Scheduler.{check_retry_tasks, check_delayed_tasks, check_cron_tasks}
use rediq.Scheduler.Aggregation.{check_aggregation}

-- The state of a scheduler besides its client and its flag.
pub record Scheduler : Type 0 where
  pub queues : List String
  pub aggregator : Option AggregatorManager

abbrev pub new_scheduler : List String → Scheduler
new_scheduler queues = record { queues = queues; aggregator = none }

abbrev pub with_aggregator : List String → AggregatorManager → Scheduler
with_aggregator queues manager = record { queues = queues; aggregator = some manager }

-- What the outside gives to one round of `run`.
pub record Round : Type 0 where
  pub shutdown : Bool
  pub now : ℕ
  pub scans : Scans
  pub fuel : ℕ

-- Every how many rounds a check is due.
abbrev pub every : {A : Type 0} → ℕ → ℕ → A → A → A
every n tick due otherwise = if tick % n == 0 then due else otherwise

-- The result of an aggregation check: whether it ended.
abbrev pub ended : Result (Option (Unit {0})) → Option (Unit {0})
ended (ok r) = r
ended (err _) = some tt

abbrev pub next_tick :
    {B : Type 0} → Prog B (Option (Unit {0})) → Option (Unit {0}) → Prog B (Option (Unit {0}))
next_tick rest none = pure none
next_tick rest (some _) = rest

module _ {B : Type 0} (codec : Codec B) (cfg : RediqConfig) (cron : Cron) (fresh : String → String)
    (sched : Scheduler) where
  -- One round, the `tick`-th.
  unfoldable pub tick_checks : ℕ → Round → Prog B (Option (Unit {0}))
  tick_checks tick r = do
    attempt (check_retry_tasks sched.queues r.now)
    every 5 tick (do attempt (check_delayed_tasks sched.queues r.now); pure tt) (pure tt)
    every 60 tick (do attempt (check_cron_tasks codec cfg cron fresh sched.queues r.now); pure tt)
        (pure tt)
    every 2 tick
        (do a ← attempt (check_aggregation codec sched.aggregator r.scans r.fuel); pure (ended a))
        (pure (some tt))

  -- The loop from a round on, `tick` of them being counted: it ends when a round finds the flag set.
  unfoldable pub run_scheduler : ℕ → List Round → Prog B (Option (Unit {0}))
  run_scheduler tick [] = pure none
  run_scheduler tick (r ∷ rs) =
      let count = (tick + 1) % 2 ^ 64 in
      let rest = run_scheduler count rs in
      if r.shutdown then pure (some tt) else do done ← tick_checks count r; next_tick rest done

module _ {B : Type 0} where
  abbrev pub register_found : String → Option (List String) → Prog B (Unit {0})
  register_found id none = pure tt
  register_found id (some deps) = register id deps

  unfoldable pub register_dependencies : Task → Prog B (Unit {0})
  register_dependencies t = register_found t.id t.options.depends_on

unfoldable pub check_dependent_tasks : {B : Type 0} → Codec B → String → Prog B (Unit {0})
check_dependent_tasks codec completed = do check_dependents codec completed; pure tt

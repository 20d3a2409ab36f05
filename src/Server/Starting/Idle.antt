-- ===== src/Server/Starting/Idle.antt =====
-- What a started server leaves undone (rediq/src/server/mod.rs): its scheduler has no aggregator, and
-- its shutdown has no limit.
use rediq.Prelude.{
  ℕ, String, ◌≡◌, refl, ap, ◌∙◌, true, false, Bool, none, some, List, [], ◌∷◌, arith,
}
use rediq.Errors.{ok}
use rediq.Redis.Scan.{Scans}
use rediq.Redis.Server.{Server, outcome, outcome-eq-replay, replay}
use rediq.Codec.{Codec}
use rediq.Scheduler.Running.{Scheduler}
use rediq.Scheduler.Aggregation.{check_aggregation}
use rediq.Server.{ServerState}
use rediq.Server.Starting.{run_server, scheduler_of, graceful_shutdown, join_rest}

no_aggregator :
    (on : Bool) (queues : List String) (sched : Scheduler)
    → scheduler_of on queues ≡ some sched
    → sched.aggregator ≡ none
no_aggregator true queues sched e = ground (arith, e)
no_aggregator false queues sched e = cc

module _ {F S P B : Type 0} (codec : Codec B) (st : ServerState F S P) where
  -- `check_aggregation` of the scheduler that a server starts ends at once and changes nothing,
  -- whatever aggregators are registered with the server.
  pub run_server-check_aggregation :
      (sched : Scheduler) (scans : Scans) (fuel : ℕ) (s : Server B) (db : s.Db)
      → (run_server st).scheduler ≡ some sched
      → outcome s (check_aggregation codec sched.aggregator scans fuel) db
        ≡ (ok (some tt), s.view db)
  unfolding replay run_server check_aggregation
  run_server-check_aggregation sched scans fuel s db e =
      outcome-eq-replay s (check_aggregation codec sched.aggregator scans fuel) db
      ∙ ap (λ a. replay s.order (check_aggregation codec a scans fuel) (s.view db))
          (no_aggregator st.config.enable_scheduler st.config.queues sched e)

-- `graceful_shutdown` comes back when the last of the workers has ended, whatever the limit of
-- thirty seconds and the count of workers are.
pub graceful_shutdown-eq-join_rest :
    (initial_count now : ℕ) (ts : List ℕ)
    → graceful_shutdown initial_count now ts ≡ join_rest now ts
unfolding graceful_shutdown
graceful_shutdown-eq-join_rest initial_count now [] = refl
graceful_shutdown-eq-join_rest initial_count now (t ∷ ts) =
    ground (arith, graceful_shutdown-eq-join_rest initial_count t ts)

-- ===== src/Observability.antt =====
-- The metrics of observability/metrics.rs (rediq/src/observability/metrics.rs). The prometheus crate is
-- an argument: vectors of counters, gauges and histograms by the values of their labels.
pub mod Counting
use rediq.Prelude.{ℕ, ℤ, ◌+◌, ◌^◌, pos, negsuc, String, ◌≡◌, ◌≢◌, List, [], ◌∷◌}
use rediq.Client.{as_i64}

-- A vector of counters: a counter that was never touched is 0, and one is raised alone.
pub record CounterVec (V : Type 0) : Type 0 where
  pub inc : List String → V → V
  pub value : List String → V → ℕ
  pub value-inc_self : (l : List String) (v : V) → value l (inc l v) ≡ value l v + 1
  pub value-inc_other : (l k : List String) (v : V) → l ≢ k → value k (inc l v) ≡ value k v

-- `O` is what a histogram observes: seconds as a float there.
pub record Prometheus (V G H O : Type 0) : Type 0 where
  pub counters : CounterVec V
  pub set : List String → ℤ → G → G
  pub observe : List String → O → H → H

pub record RediqMetrics (V G H : Type 0) : Type 0 where
  pub tasks_enqueued_total : V
  pub tasks_processed_total : V
  pub tasks_failed_total : V
  pub tasks_retried_total : V
  pub task_duration_seconds : H
  pub queue_pending_tasks : G
  pub queue_active_tasks : G
  pub queue_delayed_tasks : G
  pub queue_retry_tasks : G
  pub queue_dead_tasks : G
  pub worker_heartbeat : G

module _ {V G H O : Type 0} (p : Prometheus V G H O) where
  unfoldable pub record_task_enqueued : RediqMetrics V G H → String → String → RediqMetrics V G H
  record_task_enqueued m queue task_type = record m {
    tasks_enqueued_total = p.counters.inc (queue ∷ task_type ∷ []) m.tasks_enqueued_total;
  }

  unfoldable pub record_task_processed :
      RediqMetrics V G H → String → String → O → RediqMetrics V G H
  record_task_processed m queue task_type duration = record m {
    tasks_processed_total = p.counters.inc (queue ∷ task_type ∷ []) m.tasks_processed_total;
    task_duration_seconds = p.observe (queue ∷ task_type ∷ []) duration m.task_duration_seconds;
  }

  unfoldable pub record_task_failed :
      RediqMetrics V G H → String → String → String → RediqMetrics V G H
  record_task_failed m queue task_type error_type = record m {
    tasks_failed_total = p.counters.inc (queue ∷ task_type ∷ error_type ∷ []) m.tasks_failed_total;
  }

  unfoldable pub record_task_retried : RediqMetrics V G H → String → String → RediqMetrics V G H
  record_task_retried m queue task_type = record m {
    tasks_retried_total = p.counters.inc (queue ∷ task_type ∷ []) m.tasks_retried_total;
  }

  unfoldable pub update_queue_metrics :
      RediqMetrics V G H → String → ℕ → ℕ → ℕ → ℕ → ℕ → RediqMetrics V G H
  update_queue_metrics m queue pending active delayed retry dead = record m {
    queue_pending_tasks = p.set (queue ∷ []) (as_i64 pending) m.queue_pending_tasks;
    queue_active_tasks = p.set (queue ∷ []) (as_i64 active) m.queue_active_tasks;
    queue_delayed_tasks = p.set (queue ∷ []) (as_i64 delayed) m.queue_delayed_tasks;
    queue_retry_tasks = p.set (queue ∷ []) (as_i64 retry) m.queue_retry_tasks;
    queue_dead_tasks = p.set (queue ∷ []) (as_i64 dead) m.queue_dead_tasks;
  }

  unfoldable pub update_worker_heartbeat : RediqMetrics V G H → String → ℤ → RediqMetrics V G H
  update_worker_heartbeat m worker_id timestamp = record m {
    worker_heartbeat = p.set (worker_id ∷ []) timestamp m.worker_heartbeat;
  }

-- `Timer`: the labels that it was started with; `stop` is given the time that passed.
pub record Timer : Type 0 where
  pub queue : String
  pub task_type : String

unfoldable pub stop :
    {V G H O : Type 0} → Prometheus V G H O → Timer → RediqMetrics V G H → O → RediqMetrics V G H
unfolding record_task_processed
stop p timer m elapsed = record_task_processed p m timer.queue timer.task_type elapsed

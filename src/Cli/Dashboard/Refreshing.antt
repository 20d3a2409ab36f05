-- ===== src/Cli/Dashboard/Refreshing.antt =====
-- The dashboard fetches what it shows (rediq-cli/src/dashboard.rs). The queues come before the workers
-- here, where the program asks for both at the same time.
use rediq.Prelude.{
  ℕ, ◌+◌, ◌-◌, ◌%◌, ◌^◌, ltb, leb, ◌&&◌, String, Option, none, some, List, [], ◌∷◌, length,
  if◌then◌else◌,
}
use rediq.Errors.{Result, ok, err}
use rediq.Redis.{Prog, pure, attempt, ◌>>=◌}
use rediq.Codec.{Codec}
use rediq.Inspector
use rediq.Inspector.{
  TaskInfo, TaskProgress, list_queues, list_workers, queue_stats, list_tasks, get_task_progress,
}
use rediq.Cli.Dashboard.{
  Floats, DashboardState, TaskListState, QueueStats, WorkerInfo, sum, failures, outcomes,
}
use rediq.Cli.Dashboard.History.{HistoryData, add_point, is_empty}

-- An index that is past the end comes to the last one, if there is any.
abbrev pub clipped : ℕ → ℕ → ℕ
clipped i len = if ltb 0 len && leb len i then len - 1 else i

abbrev pub row : String → Result Inspector.QueueStats → List QueueStats → List QueueStats
row name (err _) rows = rows
row name (ok s) rows =
    record {
      name = name;
      pending = s.pending;
      active = s.active;
      delayed = s.delayed;
      retry = s.retried;
      dead = s.dead;
      completed = s.completed;
    }
    ∷ rows

abbrev pub worker_rows : List Inspector.WorkerInfo → List WorkerInfo
worker_rows [] = []
worker_rows (w ∷ ws) =
    record {
      id = w.id;
      server = w.server_name;
      queues = w.queues;
      status = w.status;
      processed = w.processed_total;
    }
    ∷ worker_rows ws

-- The sum wraps round, as in a build that does not check overflows.
abbrev pub total_of : ℕ → List Inspector.WorkerInfo → ℕ
total_of total [] = total
total_of total (w ∷ ws) = total_of ((total + w.processed_total) % 2 ^ 64) ws

module _ {F : Type 0} where
  abbrev pub update_queues : DashboardState F → Option (List QueueStats) → DashboardState F
  update_queues st none = st
  update_queues st (some new) = record st {
    queues = new;
    selected_queue = clipped st.selected_queue (length new);
  }

module _ {F : Type 0} (floats : Floats F) (now : ℕ) where
  abbrev pub rate : DashboardState F → ℕ → F
  rate st total =
      if ltb 0 (now - st.last_update)
      then floats.per_second (total - st.total_processed) (now - st.last_update)
      else st.ops_per_sec

  abbrev pub update_workers :
      DashboardState F → Result (List Inspector.WorkerInfo) → DashboardState F
  update_workers st (err _) = st
  update_workers st (ok ws) = record st {
    workers = worker_rows ws;
    ops_per_sec = rate st (total_of 0 ws);
    total_processed = total_of 0 ws;
  }

  abbrev pub error_point : DashboardState F → ℕ
  error_point st =
      if ltb 0 (outcomes floats st)
      then floats.permille (failures floats st) (outcomes floats st)
      else 0

  abbrev pub with_points : DashboardState F → HistoryData → HistoryData
  with_points st h =
      let h1 = add_point h "pending" (sum (λ q. q.pending) st.queues) now in
      let h2 = add_point h1 "active" (sum (λ q. q.active) st.queues) now in
      let h3 = add_point h2 "completed" (sum (λ q. q.completed) st.queues) now in
      let h4 = add_point h3 "dead" (sum (λ q. q.dead) st.queues) now in
      add_point h4 "error_rate" (error_point st) now

  abbrev pub record_points : DashboardState F → DashboardState F
  record_points st =
      if is_empty st.queues
      then record st { last_update = now }
      else record st { last_update = now; history = with_points st st.history }

module _ {B : Type 0} (codec : Codec B) where
  abbrev pub fetch_rows : List String → Prog B (List QueueStats)
  fetch_rows [] = pure []
  fetch_rows (q ∷ qs) = do
    stats ← attempt (queue_stats codec q)
    rest ← fetch_rows qs
    pure (row q stats rest)

  abbrev pub fetch_found : Result (List String) → Prog B (Option (List QueueStats))
  fetch_found (err _) = pure none
  fetch_found (ok names) = do rows ← fetch_rows names; pure (some rows)

  unfoldable pub refresh_data :
      {F : Type 0} → Floats F → ℕ → DashboardState F → Prog B (DashboardState F)
  refresh_data floats now st = do
    names ← attempt list_queues
    rows ← fetch_found names
    ws ← attempt (list_workers codec)
    pure (record_points floats now (update_workers floats now (update_queues st rows) ws))

  abbrev pub attached : TaskInfo → Result (Option TaskProgress) → TaskInfo
  attached t (ok progress) = record t { progress = progress }
  attached t (err _) = t

  abbrev pub with_progress : List TaskInfo → Prog B (List TaskInfo)
  with_progress [] = pure []
  with_progress (t ∷ ts) = do
    progress ← attempt (get_task_progress codec t.id)
    rest ← with_progress ts
    pure (attached t progress ∷ rest)

  -- What a list of tasks makes of the view.
  abbrev pub shown_tasks : TaskListState → List TaskInfo → TaskListState
  shown_tasks tl tasks = record tl {
    tasks = tasks;
    total_available = length tasks;
    selected_task = clipped tl.selected_task (length tasks);
  }

  abbrev pub refreshed :
      {F : Type 0}
      → DashboardState F
      → TaskListState
      → Result (List TaskInfo)
      → Prog B (DashboardState F)
  refreshed st tl (err _) = pure st
  refreshed st tl (ok tasks) = do
    tasks' ← with_progress tasks
    pure (record st { task_list = some (shown_tasks tl tasks') })

  abbrev pub refresh_list :
      {F : Type 0} → DashboardState F → Option TaskListState → Prog B (DashboardState F)
  refresh_list st none = pure st
  refresh_list st (some tl) = do
    tasks ← attempt (list_tasks codec tl.queue_name tl.page_size)
    refreshed st tl tasks

  unfoldable pub refresh_task_list : {F : Type 0} → DashboardState F → Prog B (DashboardState F)
  refresh_task_list st = refresh_list st st.task_list

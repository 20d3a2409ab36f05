-- ===== src/Cli/Dashboard/Input.antt =====
-- The keys of the dashboard (rediq-cli/src/dashboard.rs). `none` is a panic, of an index past the end.
use Prim.Native.String.{◌++◌}
use rediq.Prelude.{
  ℕ, ◌+◌, ◌-◌, ◌%◌, ltb, ◌==◌, String, true, false, ◌&&◌, Option, none, some, List, [], length,
  get_elem?, show, if◌then◌else◌,
}
use rediq.Errors.{Result, ok, err, display}
use rediq.Redis.{Prog, pure, attempt, ◌>>=◌}
use rediq.Codec.{Codec}
use rediq.Client.Queues.{pause_queue, resume_queue, flush_queue}
use rediq.Inspector.{TaskInfo, list_tasks}
use rediq.Cli.Dashboard.{
  DashboardState, TaskListState, QueueStats, ViewMode, StatusType, set_operation_status,
}
use rediq.Cli.Dashboard.History.{is_empty}
use rediq.Cli.Dashboard.Refreshing.{shown_tasks, refresh_task_list}

-- The keys of crossterm that the dashboard tells apart; a character is its code.
pub data KeyCode : Type 0 where
  up down left right enter esc other : KeyCode
  char : ℕ → KeyCode

abbrev pub new_list : String → TaskListState
new_list name = record {
  tasks = [];
  page = 0;
  page_size = 20;
  selected_task = 0;
  queue_name = name;
  total_available = 100;
}

module _ {B F : Type 0} (codec : Codec B) (instant : ℕ) where
  abbrev pub on_selected :
      DashboardState F
      → (QueueStats → Prog B (Option (DashboardState F)))
      → Option QueueStats
      → Prog B (Option (DashboardState F))
  on_selected st act none = pure none
  on_selected st act (some q) = act q

  -- The queue that is selected, where there are any.
  abbrev pub with_selected :
      DashboardState F
      → (QueueStats → Prog B (Option (DashboardState F)))
      → Prog B (Option (DashboardState F))
  with_selected st act =
      if is_empty st.queues
      then pure (some (set_operation_status st "No queues available" StatusType.warning instant))
      else on_selected st act (get_elem? st.queues st.selected_queue)

  abbrev pub reported :
      {A : Type 0} → DashboardState F → (A → String) → String → Result A → DashboardState F
  reported st done failed (ok a) = set_operation_status st (done a) StatusType.success instant
  reported st done failed (err e) =
      set_operation_status st (failed ++ display e) StatusType.error instant

  unfoldable pub pause_selected_queue : DashboardState F → Prog B (Option (DashboardState F))
  pause_selected_queue st = with_selected st (λ q. do
    r ← attempt (pause_queue q.name)
    pure
        (some (reported st (λ _. "Queue '" ++ (q.name ++ "' paused")) "Failed to pause queue: " r)))

  unfoldable pub resume_selected_queue : DashboardState F → Prog B (Option (DashboardState F))
  resume_selected_queue st = with_selected st (λ q. do
    r ← attempt (resume_queue q.name)
    pure (
        some
          (reported st (λ _. "Queue '" ++ (q.name ++ "' resumed")) "Failed to resume queue: " r)))

  unfoldable pub flush_selected_queue : DashboardState F → Prog B (Option (DashboardState F))
  flush_selected_queue st = with_selected st (λ q. do
    r ← attempt (flush_queue q.name)
    pure (
        some (
          reported st
            (λ count. "Queue '" ++ (q.name ++ ("' flushed (" ++ (show count ++ " tasks removed)"))))
            "Failed to flush queue: " r)))

  abbrev pub opened : DashboardState F → String → DashboardState F
  opened st name = record st { task_list = some (new_list name); view_mode = ViewMode.task_list }

  abbrev pub filled : DashboardState F → String → Result (List TaskInfo) → DashboardState F
  filled st name (ok tasks) = record (opened st name) {
    task_list = some (shown_tasks codec (new_list name) tasks);
  }
  filled st name (err _) =
      set_operation_status (opened st name) ("Failed to load tasks for queue '" ++ (name ++ "'"))
        StatusType.error instant

  abbrev pub entered :
      DashboardState F → String → Result (List TaskInfo) → Prog B (Option (DashboardState F))
  entered st name (ok _) = do
    tasks ← attempt (list_tasks codec name 20)
    pure (some (filled st name tasks))
  entered st name (err _) = pure (
      some (
        set_operation_status st ("Failed to list tasks for queue '" ++ (name ++ "'"))
          StatusType.error instant))

  unfoldable pub enter_task_list_view : DashboardState F → Prog B (Option (DashboardState F))
  enter_task_list_view st =
      with_selected st
        (λ q. do first ← attempt (list_tasks codec q.name 1); entered st q.name first)

  abbrev pub on_char : DashboardState F → ℕ → Prog B (Option (DashboardState F))
  on_char st c =
      if c == b'p'
      then pause_selected_queue st
      else if c == b'r'
      then resume_selected_queue st
      else if c == b'f'
      then flush_selected_queue st
      else if c == b'?'
      then pure (some (record st { show_help = true; view_mode = ViewMode.help }))
      else pure (some st)

  abbrev pub previous_queue : DashboardState F → DashboardState F
  previous_queue st =
      if ltb 0 st.selected_queue then record st { selected_queue = st.selected_queue - 1 } else st

  abbrev pub following_queue : DashboardState F → DashboardState F
  following_queue st =
      if ltb 0 (length st.queues) && ltb st.selected_queue (length st.queues - 1)
      then record st { selected_queue = st.selected_queue + 1 }
      else st

  unfoldable pub handle_main_input : DashboardState F → KeyCode → Prog B (Option (DashboardState F))
  handle_main_input st up = pure (some (previous_queue st))
  handle_main_input st left = pure (some (previous_queue st))
  handle_main_input st down = pure (some (following_queue st))
  handle_main_input st right = pure (some (following_queue st))
  handle_main_input st enter = enter_task_list_view st
  handle_main_input st (char c) = on_char st c
  handle_main_input st esc = pure (some (record st { operation_status = none }))
  handle_main_input st other = pure (some st)

  abbrev pub with_list : DashboardState F → TaskListState → DashboardState F
  with_list st tl = record st { task_list = some tl }

  abbrev pub task_up : DashboardState F → TaskListState → Prog B (DashboardState F)
  task_up st tl =
      if ltb 0 tl.selected_task
      then pure (with_list st (record tl { selected_task = tl.selected_task - 1 }))
      else if ltb 0 tl.page
      then refresh_task_list codec
          (with_list st (record tl { page = tl.page - 1; selected_task = tl.page_size - 1 }))
      else pure st

  abbrev pub task_down : DashboardState F → TaskListState → Prog B (DashboardState F)
  task_down st tl =
      if ltb tl.selected_task (length tl.tasks - 1)
      then pure (with_list st (record tl { selected_task = tl.selected_task + 1 }))
      else if (tl.selected_task + 1) % tl.page_size == 0
          && ltb (tl.selected_task + 1) tl.total_available
      then refresh_task_list codec
          (with_list st (record tl { page = tl.page + 1; selected_task = 0 }))
      else pure st

  abbrev pub list_input : DashboardState F → TaskListState → KeyCode → Prog B (DashboardState F)
  list_input st tl esc = pure (record st { view_mode = ViewMode.main; task_list = none })
  list_input st tl up = task_up st tl
  list_input st tl down = task_down st tl
  list_input st tl (char c) = if c == b'r' then refresh_task_list codec st else pure st
  list_input st tl left = pure st
  list_input st tl right = pure st
  list_input st tl enter = pure st
  list_input st tl other = pure st

  abbrev pub list_found :
      DashboardState F → KeyCode → Option TaskListState → Prog B (DashboardState F)
  list_found st k none = pure st
  list_found st k (some tl) = list_input st tl k

  unfoldable pub handle_task_list_input : DashboardState F → KeyCode → Prog B (DashboardState F)
  handle_task_list_input st k = list_found st k st.task_list

  -- Called in the view of the help only.
  unfoldable pub handle_help_input : DashboardState F → DashboardState F
  handle_help_input st = record st { show_help = false; view_mode = ViewMode.main }

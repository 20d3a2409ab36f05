-- ===== src/Cli/Dashboard/Sound/Fetching.antt =====
-- What the dashboard fetches keeps its state sound (rediq-cli/src/dashboard.rs).
use rediq.Prelude.{ℕ, String, Option, none, some, List, [], ◌∷◌}
use rediq.Errors.{Result, ok, err}
use rediq.Redis.{pure, ◌>>=◌}
use rediq.Redis.Yielding.{Yields, pure-Yields, attempt-Yields, bind-Yields}
use rediq.Codec.{Codec}
use rediq.Inspector.{
  TaskInfo, list_queues, list_workers, list_tasks, queue_stats, get_task_progress,
}
use rediq.Cli.Dashboard.{Floats, DashboardState, TaskListState}
use rediq.Cli.Dashboard.Refreshing.{
  fetch_rows, fetch_found, row, refresh_data, attached, with_progress, shown_tasks, refreshed,
  refresh_list, refresh_task_list, update_queues, update_workers, record_points,
}
use rediq.Cli.Dashboard.Sound.{
  IsListed, HasList, IsSound, record_points-IsSound, update_workers-IsSound, update_queues-IsSound,
  shown_tasks-IsListed, HasList-some, HasList-IsListed,
}

-- Nothing is asked of a value.
abbrev Any : {A : Type 0} → A → Type 0
Any a = Unit

module _ {B : Type 0} (codec : Codec B) (order : List String → List String) where
  fetch_rows-Yields : (names : List String) → Yields order Any (fetch_rows codec names)
  fetch_rows-Yields [] = pure-Yields order Any [] tt
  fetch_rows-Yields (q ∷ qs) =
      attempt-Yields order Any (queue_stats codec q)
        (λ stats. do rest ← fetch_rows codec qs; pure (row q stats rest))
        (λ stats.
          bind-Yields order Any Any (fetch_rows codec qs) (λ rest. pure (row q stats rest))
            (fetch_rows-Yields qs) (λ rest h. pure-Yields order Any (row q stats rest) tt))

  fetch_found-Yields : (r : Result (List String)) → Yields order Any (fetch_found codec r)
  fetch_found-Yields (err e) = pure-Yields order Any none tt
  fetch_found-Yields (ok names) =
      bind-Yields order Any Any (fetch_rows codec names) (λ rows. pure (some rows))
        (fetch_rows-Yields names) (λ rows h. pure-Yields order Any (some rows) tt)

  with_progress-Yields : (ts : List TaskInfo) → Yields order Any (with_progress codec ts)
  with_progress-Yields [] = pure-Yields order Any [] tt
  with_progress-Yields (t ∷ ts) =
      attempt-Yields order Any (get_task_progress codec t.id) _ (λ progress.
        bind-Yields order Any Any (with_progress codec ts)
          (λ rest. pure (attached codec t progress ∷ rest)) (with_progress-Yields ts)
          (λ rest h. pure-Yields order Any (attached codec t progress ∷ rest) tt))

module _ {B F : Type 0} (codec : Codec B) (order : List String → List String) where
  pub refresh_data-Yields :
      (floats : Floats F) (now : ℕ) (st : DashboardState F)
      → IsSound st
      → Yields order IsSound (refresh_data codec floats now st)
  unfolding refresh_data
  refresh_data-Yields floats now st h = attempt-Yields order IsSound list_queues _ (λ names.
      bind-Yields order Any IsSound (fetch_found codec names) _
        (fetch_found-Yields codec order names)
        (λ rows u. attempt-Yields order IsSound (list_workers codec) _ (λ ws.
          pure-Yields order IsSound
            (record_points floats now (update_workers floats now (update_queues st rows) ws))
            (record_points-IsSound floats now (update_workers floats now (update_queues st rows) ws)
              (update_workers-IsSound floats now (update_queues st rows) ws
                (update_queues-IsSound floats now st rows h))))))

  -- Another list of tasks in a sound state.
  pub relisted :
      (st : DashboardState F) (tl : TaskListState)
      → IsSound st
      → IsListed tl
      → IsSound (record st { task_list = some tl })
  relisted st tl (q, l, s) h = (q, HasList-some st.view_mode tl h, s)

  refreshed-Yields :
      (st : DashboardState F) (tl : TaskListState) (r : Result (List TaskInfo))
      → IsSound st
      → IsListed tl
      → Yields order IsSound (refreshed codec st tl r)
  refreshed-Yields st tl (err e) h l = pure-Yields order IsSound st h
  refreshed-Yields st tl (ok tasks) h l =
      bind-Yields order Any IsSound (with_progress codec tasks) _
        (with_progress-Yields codec order tasks)
        (λ tasks' u.
          pure-Yields order IsSound _
            (relisted st (shown_tasks codec tl tasks') h (shown_tasks-IsListed codec tl tasks' l)))

  refresh_list-Yields :
      (st : DashboardState F) (o : Option TaskListState)
      → IsSound st
      → HasList st.view_mode o
      → Yields order IsSound (refresh_list codec st o)
  refresh_list-Yields st none h l = pure-Yields order IsSound st h
  refresh_list-Yields st (some tl) h l =
      attempt-Yields order IsSound (list_tasks codec tl.queue_name tl.page_size)
        (refreshed codec st tl)
        (λ r. refreshed-Yields st tl r h (HasList-IsListed st.view_mode tl l))

  pub refresh_task_list-Yields :
      (st : DashboardState F) → IsSound st → Yields order IsSound (refresh_task_list codec st)
  unfolding refresh_task_list
  refresh_task_list-Yields st h = refresh_list-Yields st st.task_list h h.1

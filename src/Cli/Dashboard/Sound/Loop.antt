-- ===== src/Cli/Dashboard/Sound/Loop.antt =====
-- What keys and refreshes do to the dashboard in its loop, and how the loop can end
-- (rediq-cli/src/dashboard.rs).
use rediq.Prelude.{
  ℕ, ◌≡◌, refl, ap, ◌∙◌, ◌⊎◌, inl, inr, String, Option, none, some, List, [], ◌∷◌, arith,
  Bool-cases,
}
use rediq.Errors.{Result, ok}
use rediq.Redis.{Prog, pure, ◌>>=◌}
use rediq.Redis.Keyspace.{Keyspace}
use rediq.Redis.Server.{Server, outcome, outcome-eq-replay}
use rediq.Redis.Yielding.{Yields, pure-Yields, bind-Yields}
use rediq.Codec.{Codec}
use rediq.Cli.Dashboard.{Floats, DashboardState, ViewMode, new_state, check_and_update_alerts}
use rediq.Cli.Dashboard.Refreshing.{refresh_data}
use rediq.Cli.Dashboard.Input.{KeyCode, handle_task_list_input, handle_help_input}
use rediq.Cli.Dashboard.Running.{
  Polled, unreadable, idle, pressed, Round, Ending, going, quit, refused_in, undrawable_in,
  panicked, is_quit, on_key, on_event, refresh_round, settle_round, dashboard_round, go_on,
  on_polled, on_drawn, run_dashboard, run, expired,
}
use rediq.Cli.Dashboard.Drawing.{Rendering, shown, refused, crashed, draw}
use rediq.Cli.Dashboard.Sound.Fetching.{refresh_data-Yields}
use rediq.Cli.Dashboard.Sound.Keys.{given-Yields, handle_main_input-Yields}
use rediq.Cli.Dashboard.Sound.Tasks.{handle_task_list_input-Yields}
use rediq.Cli.Dashboard.Sound.{IsSound, IsFine, HasList-main}

-- Where the loop may be: a key or a refresh never panics, and the state is sound. An error in a round is
-- one of the terminal in it, and a panic one of drawing this state.
abbrev pub IsExplained : {F : Type 0} → Ending F → Type 0
IsExplained (going st) = IsSound st
IsExplained (quit st) = IsSound st
IsExplained (refused_in r st) =
    IsSound st × ((draw r.screen st ≡ refused) ⊎ (r.polled ≡ unreadable))
IsExplained (undrawable_in r st) = IsSound st × (draw r.screen st ≡ crashed)
IsExplained panicked = ⊥

module _ {B F : Type 0} (codec : Codec B) (floats : Floats F)
    (order : List String → List String) where
  on_key-Yields :
      (st : DashboardState F) (v : ViewMode) (instant : ℕ) (k : KeyCode)
      → IsSound st
      → Yields order IsFine (on_key codec floats st v instant k)
  unfolding handle_help_input
  on_key-Yields st ViewMode.main instant k h = handle_main_input-Yields codec order instant st k h
  on_key-Yields st ViewMode.task_list instant k h =
      bind-Yields order IsSound IsFine (handle_task_list_input codec instant st k)
        (λ st'. pure (some st')) (handle_task_list_input-Yields codec order instant st k h)
        (λ st' g. given-Yields codec order st' g)
  on_key-Yields st ViewMode.help instant k h =
      given-Yields codec order (handle_help_input codec instant st)
        (h.0, HasList-main st.view_mode st.task_list h.1, h.2)

  on_event-Yields :
      (st : DashboardState F) (instant : ℕ) (k : Option KeyCode)
      → IsSound st
      → Yields order IsFine (on_event codec floats st instant k)
  on_event-Yields st instant none h = given-Yields codec order st h
  on_event-Yields st instant (some k) h = on_key-Yields st st.view_mode instant k h

  refresh_round-Yields :
      (r : Round) (st : DashboardState F)
      → IsSound st
      → Yields order IsSound (refresh_round codec floats r st)
  unfolding check_and_update_alerts
  refresh_round-Yields r st h = elim (Bool-cases r.due) [
    | inl y ↦ rw y (
        bind-Yields order IsSound IsSound (refresh_data codec floats r.instant st)
          (λ st'. pure (record (check_and_update_alerts floats st') {
            operation_status = expired r.instant st'.operation_status;
          }))
          (refresh_data-Yields codec order floats r.instant st h)
          (λ st' g.
            pure-Yields order IsSound
              (record (check_and_update_alerts floats st') {
                operation_status = expired r.instant st'.operation_status;
              })
              g))
    | inr n ↦ rw n (pure-Yields order IsSound st h)
  ]

  settle_round-Yields :
      (r : Round) (o : Option (DashboardState F))
      → IsFine o
      → Yields order IsFine (settle_round codec floats r o)
  settle_round-Yields r none h = absurd h
  settle_round-Yields r (some st) h =
      bind-Yields order IsSound IsFine (refresh_round codec floats r st) (λ st'. pure (some st'))
        (refresh_round-Yields r st h) (λ st' g. given-Yields codec order st' g)

  dashboard_round-Yields :
      (r : Round) (st : DashboardState F) (k : Option KeyCode)
      → IsSound st
      → Yields order IsFine (dashboard_round codec floats st r k)
  unfolding dashboard_round
  dashboard_round-Yields r st k h =
      bind-Yields order IsFine IsFine (on_event codec floats st r.instant k)
        (settle_round codec floats r) (on_event-Yields st r.instant k h)
        (λ o g. settle_round-Yields r o g)

  module _ (rest : DashboardState F → Prog B (Ending F))
      (go : (st : DashboardState F) → IsSound st → Yields order IsExplained (rest st)) where
    going_on :
        (o : Option (DashboardState F))
        → IsFine o
        → Yields order IsExplained (go_on codec floats rest o)
    going_on none h = absurd h
    going_on (some st) h = go st h

    turning :
        (r : Round) (st : DashboardState F) (k : Option KeyCode)
        → IsSound st
        → Yields order IsExplained
            (do st' ← dashboard_round codec floats st r k; go_on codec floats rest st')
    turning r st k h =
        bind-Yields order IsFine IsExplained (dashboard_round codec floats st r k)
          (go_on codec floats rest) (dashboard_round-Yields r st k h) going_on

    on_polled-Yields :
        (r : Round) (st : DashboardState F) (p : Polled)
        → r.polled ≡ p
        → IsSound st
        → Yields order IsExplained (on_polled codec floats rest r st p)
    on_polled-Yields r st unreadable e h =
        pure-Yields order IsExplained (refused_in r st) (h, inr e)
    on_polled-Yields r st idle e h = turning r st none h
    on_polled-Yields r st (pressed k) e h = elim (Bool-cases (is_quit k st.view_mode)) [
      | inl y ↦ rw y (pure-Yields order IsExplained (quit st) h)
      | inr n ↦ rw n (turning r st (some k) h)
    ]

    on_drawn-Yields :
        (r : Round) (st : DashboardState F) (d : Rendering)
        → draw r.screen st ≡ d
        → IsSound st
        → Yields order IsExplained (on_drawn codec floats rest r st d)
    on_drawn-Yields r st shown e h = on_polled-Yields r st r.polled refl h
    on_drawn-Yields r st refused e h = pure-Yields order IsExplained (refused_in r st) (h, inl e)
    on_drawn-Yields r st crashed e h = pure-Yields order IsExplained (undrawable_in r st) (h, e)

  run_dashboard-Yields :
      (rs : List Round) (st : DashboardState F)
      → IsSound st
      → Yields order IsExplained (run_dashboard codec floats rs st)
  unfolding run_dashboard
  run_dashboard-Yields [] st h = pure-Yields order IsExplained (going st) h
  run_dashboard-Yields (r ∷ rs) st h =
      on_drawn-Yields (run_dashboard codec floats rs) (λ st' g. run_dashboard-Yields rs st' g) r st
        (draw r.screen st) refl h

  run-Yields :
      (rounds : List Round) (instant : ℕ)
      → Yields order IsExplained (run codec floats rounds instant)
  unfolding run
  run-Yields rounds instant =
      bind-Yields order IsSound IsExplained
        (refresh_data codec floats instant (new_state floats instant))
        (run_dashboard codec floats rounds)
        (refresh_data-Yields codec order floats instant (new_state floats instant)
          (inl refl, tt, (omega arith, omega arith, omega arith, omega arith, omega arith)))
        (λ st g. run_dashboard-Yields rounds st g)

-- Whatever keys are pressed, whenever it refreshes, and whatever the data are, no key and no
-- refresh makes the dashboard fail or panic, where sums wrap round: its loop goes on, quits by
-- the key, stops by an error of the terminal that draws or gives the keys, or panics while it
-- draws; in each case the selected queue and the selected task are within their lists unless
-- these are empty, the view of tasks has a list, the first page of it is shown, and no history is
-- longer than its limit.
pub run-IsExplained :
    {B F : Type 0} (codec : Codec B) (floats : Floats F) (rounds : List Round) (instant : ℕ)
    (s : Server B) (db : s.Db)
    → (o : Ending F) × ((outcome s (run codec floats rounds instant) db).0 ≡ ok o) × IsExplained o
run-IsExplained {B} {F} codec floats rounds instant s db =
    let (o, ks, e, h) = run-Yields codec floats s.order rounds instant (s.view db) in
    (
      o,
      ap (λ (r : Result (Ending F) × Keyspace B). r.0)
          (outcome-eq-replay s (run codec floats rounds instant) db ∙ e),
      h,
    )

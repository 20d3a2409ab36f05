-- ===== src/Cli/Dashboard/Running.antt =====
-- The loop of the dashboard (rediq-cli/src/dashboard.rs), by the rounds that it makes: each draws the state,
-- waits for a key, and refreshes when this is due.
use rediq.Prelude.{ℕ, ◌-◌, ltb, ◌==◌, Bool, false, Option, none, some, List, [], ◌∷◌, if◌then◌else◌}
use rediq.Redis.{Prog, pure, ◌>>=◌}
use rediq.Codec.{Codec}
use rediq.Cli.Dashboard.{
  Floats, DashboardState, OperationStatus, ViewMode, new_state, check_and_update_alerts,
}
use rediq.Cli.Dashboard.Input.{
  KeyCode, char, handle_main_input, handle_task_list_input, handle_help_input,
}
use rediq.Cli.Dashboard.Refreshing.{refresh_data}
use rediq.Cli.Dashboard.Drawing.{Screen, Rendering, shown, refused, crashed, draw}

-- What comes of waiting for a key: an error of the terminal, no key, or a key.
pub data Polled : Type 0 where
  unreadable idle : Polled
  pressed : KeyCode → Polled

-- What the outside gives to a round: the terminal, the clock, and whether the interval between two
-- refreshes is over.
pub record Round : Type 0 where
  pub screen : Screen
  pub polled : Polled
  pub instant : ℕ
  pub due : Bool

-- How far the loop has come: it goes on behind the rounds, or it has ended in one of them, by the key that
-- quits, by an error of the terminal, by a panic while drawing, or by a panic at a key.
pub data Ending (F : Type 0) : Type 0 where
  going quit : DashboardState F → Ending F
  refused_in undrawable_in : Round → DashboardState F → Ending F
  panicked : Ending F

abbrev pub is_quit : KeyCode → ViewMode → Bool
is_quit (char c) ViewMode.main = c == b'q'
is_quit _ _ = false

abbrev pub expired : ℕ → Option OperationStatus → Option OperationStatus
expired instant none = none
expired instant (some s) = if ltb 3000 (instant - s.timestamp) then none else some s

module _ {B F : Type 0} (codec : Codec B) (floats : Floats F) where
  abbrev pub on_key : DashboardState F → ViewMode → ℕ → KeyCode → Prog B (Option (DashboardState F))
  on_key st ViewMode.main instant k = handle_main_input codec instant st k
  on_key st ViewMode.task_list instant k = do
    st' ← handle_task_list_input codec instant st k
    pure (some st')
  on_key st ViewMode.help instant k = pure (some (handle_help_input codec instant st))

  -- Whether to go on, and with what.
  abbrev pub on_event : DashboardState F → ℕ → Option KeyCode → Prog B (Option (DashboardState F))
  on_event st instant none = pure (some st)
  on_event st instant (some k) = on_key st st.view_mode instant k

  abbrev pub refresh_round : Round → DashboardState F → Prog B (DashboardState F)
  refresh_round r st =
      if r.due
      then (do
        st' ← refresh_data codec floats r.instant st
        pure (record (check_and_update_alerts floats st') {
          operation_status = expired r.instant st'.operation_status;
        }))
      else pure st

  abbrev pub settle_round : Round → Option (DashboardState F) → Prog B (Option (DashboardState F))
  settle_round r none = pure none
  settle_round r (some st) = do st' ← refresh_round r st; pure (some st')

  -- The part of a round that changes the state.
  unfoldable pub dashboard_round :
      DashboardState F → Round → Option KeyCode → Prog B (Option (DashboardState F))
  dashboard_round st r k = do st' ← on_event st r.instant k; settle_round r st'

  abbrev pub go_on :
      (DashboardState F → Prog B (Ending F)) → Option (DashboardState F) → Prog B (Ending F)
  go_on rest none = pure panicked
  go_on rest (some st) = rest st

  abbrev pub on_polled :
      (DashboardState F → Prog B (Ending F)) → Round → DashboardState F → Polled → Prog B (Ending F)
  on_polled rest r st unreadable = pure (refused_in r st)
  on_polled rest r st idle = do st' ← dashboard_round st r none; go_on rest st'
  on_polled rest r st (pressed k) =
      if is_quit k st.view_mode
      then pure (quit st)
      else do st' ← dashboard_round st r (some k); go_on rest st'

  abbrev pub on_drawn :
      (DashboardState F → Prog B (Ending F))
      → Round
      → DashboardState F
      → Rendering
      → Prog B (Ending F)
  on_drawn rest r st shown = on_polled rest r st r.polled
  on_drawn rest r st refused = pure (refused_in r st)
  on_drawn rest r st crashed = pure (undrawable_in r st)

  -- The first rounds of the loop, which has no bound.
  unfoldable pub run_dashboard : List Round → DashboardState F → Prog B (Ending F)
  run_dashboard [] st = pure (going st)
  run_dashboard (r ∷ rs) st = on_drawn (run_dashboard rs) r st (draw r.screen st)

  -- `run`, behind the setting up of the terminal.
  unfoldable pub run : List Round → ℕ → Prog B (Ending F)
  run rounds instant = do
    st ← refresh_data codec floats instant (new_state floats instant)
    run_dashboard rounds st

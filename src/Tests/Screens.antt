-- ===== src/Tests/Screens.antt =====
-- The theorem on the drawing of the dashboard at concrete data.
use rediq.Prelude.{none, some, [], ◌∷◌}
use rediq.Inspector.{task_info}
use rediq.Cli.Dashboard.{DashboardState, ViewMode, new_state}
use rediq.Cli.Dashboard.Input.{new_list}
use rediq.Cli.Dashboard.Sound.Drawn
use rediq.Tests.Samples.{mail}
use rediq.Tests.Utils.{no_floats}

-- A worker with a long name, and a list of one task.
abbrev full_view : DashboardState (Unit {0})
full_view = record (new_state no_floats 0) {
  view_mode = ViewMode.task_list;
  workers =
      record {
        id = "rediq-server-1-worker-12";
        server = "a-server-of-many";
        queues = [];
        status = "idle";
        processed = 3;
      }
      ∷ [];
  task_list =
      some (record (new_list "mail") { tasks = task_info mail none ∷ []; total_available = 1 });
}

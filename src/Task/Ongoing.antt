-- ===== src/Task/Ongoing.antt =====
-- The progress context of the task that runs (rediq/src/task/progress_ext.rs). The cell is that of the
-- thread: what is set there is seen by whatever runs on this thread next.
pub mod Own
use rediq.Prelude.{String, str_eq, Bool, true, false, Option, none, some, if◌then◌else◌}
use rediq.Task.{Task}
use rediq.Progress.{ProgressContext}

-- What a thread holds.
abbrev pub Cell : Type 0
Cell = Option ProgressContext

abbrev pub set_progress_context : Option ProgressContext → Cell → Cell
set_progress_context ctx cell = ctx

abbrev pub get_progress_context : Cell → Option ProgressContext
get_progress_context cell = cell

unfoldable pub clear_progress_context : Cell → Cell
clear_progress_context cell = set_progress_context none cell

abbrev pub own_context : Task → ProgressContext → Option ProgressContext
own_context t ctx = if str_eq ctx.task_id t.id then some ctx else none

unfoldable pub progress : Task → Cell → Option ProgressContext
progress t none = none
progress t (some ctx) = own_context t ctx

-- A guard clears the cell when it is dropped.
pub data ProgressGuard : Type 0 where
  guard : ProgressGuard

abbrev pub own_guard : Task → ProgressContext → Option ProgressGuard
own_guard t ctx = if str_eq ctx.task_id t.id then some guard else none

unfoldable pub progress_guard : Task → Cell → Option ProgressGuard
progress_guard t none = none
progress_guard t (some ctx) = own_guard t ctx

unfoldable pub drop_guard : ProgressGuard → Cell → Cell
unfolding clear_progress_context
drop_guard guard cell = clear_progress_context cell

unfoldable pub set_own_progress : Task → Option ProgressContext → Cell → Cell
set_own_progress t ctx cell = set_progress_context ctx cell

unfoldable pub has_progress : Cell → Bool
has_progress none = false
has_progress (some ctx) = true

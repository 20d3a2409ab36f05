-- ===== src/Cli/Dashboard/Drawing.antt =====
-- Whether the dashboard can be drawn (rediq-cli/src/dashboard.rs): the parts of its drawing that panic.
use Prim.Native.Char.{code}
use rediq.Prelude.{
  ℕ, ◌+◌, ◌-◌, ◌/◌, ◌%◌, ltb, leb, ◌==◌, not, String, Bool, true, false, ◌&&◌, ◌||◌, Option, none,
  some, List, [], ◌∷◌, ◌++◌, length, take, if◌then◌else◌,
}
use rediq.Inspector.{TaskInfo}
use rediq.Cli.Shortening.{slice_from, dotted_ahead, shorten_string}
use rediq.Cli.Dashboard.{DashboardState, TaskListState, ViewMode, WorkerInfo}

-- What a terminal does with a frame: it shows it, it reports an error, or the ratatui crate panics.
pub data Rendering : Type 0 where
  shown refused crashed : Rendering

-- What the outside gives to a drawing: the lines of the terminal, those that the layout gives to the panel
-- of workers, whether the build checks for overflows, the clock, the times that chrono has a local time
-- for, and what the terminal does in the end.
pub record Screen : Type 0 where
  pub height : ℕ
  pub panel_height : ℕ
  pub overflow_checks : Bool
  pub now : ℕ
  pub has_local_time : ℕ → Bool
  pub rendering : Rendering

-- The bytes of a text.
abbrev pub tail_byte : ℕ → ℕ
tail_byte n = 128 + n % 64

abbrev pub encode : ℕ → List ℕ
encode c =
    if ltb c 128
    then c ∷ []
    else if ltb c 2_048
    then (192 + c / 64) ∷ tail_byte c ∷ []
    else if ltb c 65_536
    then (224 + c / 4_096) ∷ tail_byte (c / 64) ∷ tail_byte c ∷ []
    else (240 + c / 262_144) ∷ tail_byte (c / 4_096) ∷ tail_byte (c / 64) ∷ tail_byte c ∷ []

abbrev pub as_bytes : String → List ℕ
as_bytes String.[] = []
as_bytes (String.◌∷◌ c s) = encode (code c) ++ as_bytes s

abbrev pub is_some : {A : Type 0} → Option A → Bool
is_some none = false
is_some (some a) = true

-- As in utils.rs, for a limit of three and more.
abbrev pub shorten_id : List ℕ → ℕ → Option (List ℕ)
shorten_id id max_len =
    if leb (length id) max_len
    then some id
    else dotted_ahead (slice_from (length id - max_len + 3) id)

-- Whether the texts of a worker's row can be made.
abbrev pub draws_worker : WorkerInfo → Bool
draws_worker w =
    is_some (shorten_id (as_bytes w.id) 20) && is_some (shorten_string (as_bytes w.server) 15)

abbrev pub draws_workers : List WorkerInfo → Bool
draws_workers [] = true
draws_workers (w ∷ ws) = draws_worker w && draws_workers ws

module _ (screen : Screen) where
  -- A time of a day ago and more is shown by its date, which must be one of chrono's.
  abbrev pub format_timestamp : ℕ → Bool
  format_timestamp timestamp =
      ltb (screen.now - timestamp) 86_400 || screen.has_local_time timestamp

  abbrev pub draws_task : TaskInfo → Bool
  draws_task t = is_some (shorten_id (as_bytes t.id) 10) && format_timestamp t.created_at

  abbrev pub draws_tasks : List TaskInfo → Bool
  draws_tasks [] = true
  draws_tasks (t ∷ ts) = draws_task t && draws_tasks ts

  -- The number of pages is a quotient by the size of a page.
  abbrev pub draw_task_list_overlay : Option TaskListState → Bool
  draw_task_list_overlay none = true
  draw_task_list_overlay (some tl) = not (tl.page_size == 0) && draws_tasks tl.tasks

  abbrev pub draw_overlay : ViewMode → Option TaskListState → Bool
  draw_overlay ViewMode.task_list tl = draw_task_list_overlay tl
  draw_overlay _ tl = true

  -- The title takes 4 lines, the history 14 of the others.
  abbrev pub has_room : Bool
  has_room = not screen.overflow_checks || (leb 4 screen.height && leb 14 (screen.height - 4))

  module _ {F : Type 0} where
    abbrev pub draw_workers_panel : DashboardState F → Bool
    draw_workers_panel st = draws_workers (take (screen.panel_height - 3) st.workers)

    abbrev pub draw_main_view : DashboardState F → Bool
    draw_main_view st = has_room && draw_workers_panel st

    -- Whether nothing panics in it.
    unfoldable pub ui : DashboardState F → Bool
    ui st = draw_main_view st && draw_overlay st.view_mode st.task_list

    abbrev pub draw : DashboardState F → Rendering
    draw st = if ui st then screen.rendering else crashed

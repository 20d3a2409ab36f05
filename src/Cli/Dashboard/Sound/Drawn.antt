-- ===== src/Cli/Dashboard/Sound/Drawn.antt =====
-- When the dashboard is drawn without a panic (rediq-cli/src/dashboard.rs).
use rediq.Prelude.{ℕ, ltb, String, Bool, true, ◌&&◌, ◌≡◌, Option, none, some, List, [], ◌∷◌}
use rediq.Inspector.{TaskInfo}
use rediq.Cli.Dashboard.{TaskListState, WorkerInfo}
use rediq.Cli.Dashboard.Drawing.{Screen, as_bytes, format_timestamp}

abbrev single_bytes : List ℕ → Bool
single_bytes [] = true
single_bytes (b ∷ l) = ltb b 128 && single_bytes l

-- Every character of the text takes one byte.
abbrev pub IsAscii : String → Type 0
IsAscii s = single_bytes (as_bytes s) ≡ true

abbrev pub AllAscii : List WorkerInfo → Type 0
AllAscii [] = Unit
AllAscii (w ∷ ws) = IsAscii w.id × IsAscii w.server × AllAscii ws

-- The identifiers of the tasks are plain, and their times can be shown.
abbrev pub AllShown : Screen → List TaskInfo → Type 0
AllShown screen [] = Unit
AllShown screen (t ∷ ts) =
    IsAscii t.id × (format_timestamp screen t.created_at ≡ true) × AllShown screen ts

abbrev pub tasks_of : Option TaskListState → List TaskInfo
tasks_of none = []
tasks_of (some tl) = tl.tasks

-- ===== src/Cli/Dashboard/Sound.antt =====
-- The invariant of the dashboard's state, and that its pure steps keep it
-- (rediq-cli/src/dashboard.rs).
pub mod Fetching
pub mod Keys
pub mod Tasks
pub mod Drawn
pub mod Loop
use rediq.Prelude.{
  ℕ, zero, suc, ◌+◌, ◌-◌, ◌%◌, ◌≤◌, ◌<◌, ltb, leb, ◌==◌, ◌&&◌, ◌≡◌, refl, ap, ◌∙◌, ◌⊎◌, inl, inr,
  String, Bool, true, false, Option, none, some, List, [], ◌∷◌, ◌++◌, length, snoc, drop, get_elem?,
  arith, Bool-cases, if◌then◌else◌,
}
use rediq.Inspector.{TaskInfo}
use rediq.Errors.{Result, ok, err}
use rediq.Inspector
use rediq.Cli.Dashboard.{
  Floats, DashboardState, TaskListState, QueueStats, ViewMode, set_operation_status, StatusType,
  check_and_update_alerts,
}
use rediq.Cli.Dashboard.History.{HistoryData, HistoryPoint, pushed, add_point, is_empty}
use rediq.Cli.Dashboard.Refreshing.{
  clipped, update_queues, update_workers, record_points, with_points, shown_tasks,
}
use rediq.Codec.{Codec}

-- An index into a list, unless it is empty.
abbrev pub IsWithin : ℕ → ℕ → Type 0
IsWithin i len = (len ≡ 0) ⊎ (i < len)

-- The first page is shown, and either all that there is, or nothing yet.
abbrev pub IsListed : TaskListState → Type 0
IsListed tl =
    (tl.page ≡ 0)
    × (tl.page_size ≡ 20)
    × IsWithin tl.selected_task (length tl.tasks)
    × ((tl.total_available ≡ length tl.tasks) ⊎ ((tl.selected_task ≡ 0) × (length tl.tasks ≡ 0)))

-- In the view of tasks there are some to show.
abbrev pub HasList : ViewMode → Option TaskListState → Type 0
HasList ViewMode.main none = Unit
HasList ViewMode.help none = Unit
HasList ViewMode.task_list none = ⊥
HasList _ (some tl) = IsListed tl

abbrev pub IsShort : HistoryData → Type 0
IsShort h =
    (length h.pending ≤ h.max_points)
    × (length h.active ≤ h.max_points)
    × (length h.completed ≤ h.max_points)
    × (length h.dead ≤ h.max_points)
    × (length h.error_rate ≤ h.max_points)

abbrev pub IsSound : {F : Type 0} → DashboardState F → Type 0
IsSound st =
    IsWithin st.selected_queue (length st.queues)
    × HasList st.view_mode st.task_list
    × IsShort st.history

-- No panic, and a sound state.
abbrev pub IsFine : {F : Type 0} → Option (DashboardState F) → Type 0
IsFine none = ⊥
IsFine (some st) = IsSound st

pub clipped-IsWithin : (i len : ℕ) → IsWithin (clipped i len) len
clipped-IsWithin i len = elim (Bool-cases (ltb 0 len && leb len i)) [
  | inl y ↦ rw y (inr (ground arith))
  | inr n ↦ rw n (ground (arith, n))
]

length-snoc : {A : Type 0} (l : List A) (a : A) → length (snoc l a) ≡ suc (length l)
length-snoc [] a = refl
length-snoc (x ∷ l) a = ap suc (length-snoc l a)

length-tail : {A : Type 0} (l : List A) → length (drop 1 l) ≡ length l - 1
length-tail [] = omega arith
length-tail (x ∷ l) = omega arith

pushed_short :
    (most : ℕ) (p : HistoryPoint) (l : List HistoryPoint)
    → length l ≤ most
    → length (pushed most p l) ≤ most
pushed_short most p l h = elim (Bool-cases (ltb most (length (snoc l p)))) [
  | inl y ↦ rw y (omega (arith, length-tail (snoc l p), length-snoc l p))
  | inr n ↦ rw n (ground (arith, n))
]

module _ {F : Type 0} (floats : Floats F) (now : ℕ) where
  with_points-IsShort :
      (st : DashboardState F) (h : HistoryData) → IsShort h → IsShort (with_points floats now st h)
  unfolding add_point
  with_points-IsShort st h (p, a, c, d, e) = (
    pushed_short h.max_points _ h.pending p,
    pushed_short h.max_points _ h.active a,
    pushed_short h.max_points _ h.completed c,
    pushed_short h.max_points _ h.dead d,
    pushed_short h.max_points _ h.error_rate e,
  )

  pub record_points-IsSound :
      (st : DashboardState F) → IsSound st → IsSound (record_points floats now st)
  record_points-IsSound st (q, l, h) = elim (Bool-cases (is_empty st.queues)) [
    | inl y ↦ rw y (q, l, h)
    | inr n ↦ rw n (q, l, with_points-IsShort st st.history h)
  ]

  pub update_workers-IsSound :
      (st : DashboardState F) (ws : Result (List Inspector.WorkerInfo))
      → IsSound st
      → IsSound (update_workers floats now st ws)
  update_workers-IsSound st (ok ws) h = h
  update_workers-IsSound st (err e) h = h

  pub update_queues-IsSound :
      (st : DashboardState F) (rows : Option (List QueueStats))
      → IsSound st
      → IsSound (update_queues st rows)
  update_queues-IsSound st none h = h
  update_queues-IsSound st (some rows) (q, l, h) =
      (clipped-IsWithin st.selected_queue (length rows), l, h)

pub shown_tasks-IsListed :
    {B : Type 0} (codec : Codec B) (tl : TaskListState) (tasks : List TaskInfo)
    → IsListed tl
    → IsListed (shown_tasks codec tl tasks)
shown_tasks-IsListed codec tl tasks (p, s, i, t) =
    (p, s, clipped-IsWithin tl.selected_task (length tasks), inl refl)

-- The view of tasks, with another list.
pub HasList-some : (v : ViewMode) (tl : TaskListState) → IsListed tl → HasList v (some tl)
HasList-some ViewMode.main tl h = h
HasList-some ViewMode.help tl h = h
HasList-some ViewMode.task_list tl h = h

pub HasList-IsListed : (v : ViewMode) (tl : TaskListState) → HasList v (some tl) → IsListed tl
HasList-IsListed ViewMode.main tl h = h
HasList-IsListed ViewMode.help tl h = h
HasList-IsListed ViewMode.task_list tl h = h

-- The list stays beside another view.
pub HasList-help : (v : ViewMode) (o : Option TaskListState) → HasList v o → HasList ViewMode.help o
HasList-help v (some tl) h = HasList-IsListed v tl h
HasList-help ViewMode.main none h = tt
HasList-help ViewMode.help none h = tt
HasList-help ViewMode.task_list none h = absurd h

pub HasList-main : (v : ViewMode) (o : Option TaskListState) → HasList v o → HasList ViewMode.main o
HasList-main v (some tl) h = HasList-IsListed v tl h
HasList-main ViewMode.main none h = tt
HasList-main ViewMode.help none h = tt
HasList-main ViewMode.task_list none h = absurd h

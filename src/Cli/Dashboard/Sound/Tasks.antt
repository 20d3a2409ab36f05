-- ===== src/Cli/Dashboard/Sound/Tasks.antt =====
-- The keys in the view of tasks keep the state of the dashboard sound (rediq-cli/src/dashboard.rs).
use rediq.Prelude.{
  ℕ, ◌+◌, ◌-◌, ◌%◌, ltb, ◌==◌, ◌&&◌, ◌≡◌, refl, inl, inr, String, false, Option, none, some, List,
  length, arith, Bool-cases,
}
use rediq.Redis.Yielding.{Yields, pure-Yields}
use rediq.Codec.{Codec}
use rediq.Cli.Dashboard.{DashboardState, TaskListState, ViewMode}
use rediq.Cli.Dashboard.Input.{
  KeyCode, up, down, left, right, enter, esc, other, char, with_list, task_up, task_down,
  list_input, list_found, handle_task_list_input,
}
use rediq.Cli.Dashboard.Sound.Fetching.{refresh_task_list-Yields, relisted}
use rediq.Cli.Dashboard.Sound.{IsListed, HasList, IsSound, HasList-IsListed}

module _ {B F : Type 0} (codec : Codec B) (order : List String → List String) where
  -- The first page is never left.
  task_up-Yields :
      (instant : ℕ) (st : DashboardState F) (tl : TaskListState)
      → IsSound st
      → IsListed tl
      → Yields order IsSound (task_up codec instant st tl)
  task_up-Yields instant st tl h (p, s, i, t) = elim (Bool-cases (ltb 0 tl.selected_task)) [
    | inl y ↦ rw y (
        pure-Yields order IsSound
          (with_list codec instant st (record tl { selected_task = tl.selected_task - 1 }))
          (relisted codec order st (record tl { selected_task = tl.selected_task - 1 }) h
            (p, s, ground (arith, i, y), ground (arith, t, y))))
    | inr n ↦ rw n (rw p (pure-Yields order IsSound st h))
  ]

  task_down-Yields :
      (instant : ℕ) (st : DashboardState F) (tl : TaskListState)
      → IsSound st
      → IsListed tl
      → Yields order IsSound (task_down codec instant st tl)
  task_down-Yields instant st tl h (p, s, i, t) =
      elim (Bool-cases (ltb tl.selected_task (length tl.tasks - 1))) [
        | inl y ↦ rw y (
            pure-Yields order IsSound
              (with_list codec instant st (record tl { selected_task = tl.selected_task + 1 }))
              (relisted codec order st (record tl { selected_task = tl.selected_task + 1 }) h
                (p, s, ground (arith, i, y), ground (arith, t, y))))
        | inr n ↦
            let last : ((tl.selected_task + 1) % tl.page_size == 0
                  && ltb (tl.selected_task + 1) tl.total_available)
                ≡ false =
              elim t [ inl e ↦ ground (arith, n, e) | inr (z, w) ↦ rw (z, s) refl ] in
            rw n (rw last (pure-Yields order IsSound st h))
      ]

  list_input-Yields :
      (instant : ℕ) (st : DashboardState F) (tl : TaskListState) (k : KeyCode)
      → IsSound st
      → IsListed tl
      → Yields order IsSound (list_input codec instant st tl k)
  list_input-Yields instant st tl esc h l =
      pure-Yields order IsSound (record st { view_mode = ViewMode.main; task_list = none })
        (h.0, tt, h.2)
  list_input-Yields instant st tl up h l = task_up-Yields instant st tl h l
  list_input-Yields instant st tl down h l = task_down-Yields instant st tl h l
  list_input-Yields instant st tl (char c) h l = elim (Bool-cases (c == b'r')) [
    | inl y ↦ rw y (refresh_task_list-Yields codec order st h)
    | inr n ↦ rw n (pure-Yields order IsSound st h)
  ]
  list_input-Yields instant st tl left h l = pure-Yields order IsSound st h
  list_input-Yields instant st tl right h l = pure-Yields order IsSound st h
  list_input-Yields instant st tl enter h l = pure-Yields order IsSound st h
  list_input-Yields instant st tl other h l = pure-Yields order IsSound st h

  list_found-Yields :
      (instant : ℕ) (st : DashboardState F) (k : KeyCode) (o : Option TaskListState)
      → IsSound st
      → HasList st.view_mode o
      → Yields order IsSound (list_found codec instant st k o)
  list_found-Yields instant st k none h l = pure-Yields order IsSound st h
  list_found-Yields instant st k (some tl) h l =
      list_input-Yields instant st tl k h (HasList-IsListed st.view_mode tl l)

  pub handle_task_list_input-Yields :
      (instant : ℕ) (st : DashboardState F) (k : KeyCode)
      → IsSound st
      → Yields order IsSound (handle_task_list_input codec instant st k)
  unfolding handle_task_list_input
  handle_task_list_input-Yields instant st k h = list_found-Yields instant st k st.task_list h h.1

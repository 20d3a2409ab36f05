-- ===== src/Cli/Dashboard/Sound/Keys.antt =====
-- The keys of the dashboard keep its state sound (rediq-cli/src/dashboard.rs).
use Prim.Native.String.{◌++◌}
use rediq.Prelude.{
  ℕ, zero, suc, ◌-◌, ltb, ◌==◌, ◌&&◌, ◌≡◌, refl, inl, inr, String, true, false, Option, none, some,
  List, [], ◌∷◌, length, get_elem?, arith, Bool-cases,
}
use rediq.Errors.{Result, ok, err}
use rediq.Redis.{Prog, pure, attempt, ◌>>=◌}
use rediq.Redis.Yielding.{Yields, pure-Yields, attempt-Yields}
use rediq.Codec.{Codec}
use rediq.Inspector.{TaskInfo, list_tasks}
use rediq.Client.Queues.{pause_queue, resume_queue, flush_queue}
use rediq.Cli.Dashboard.{DashboardState, QueueStats, ViewMode, StatusType, set_operation_status}
use rediq.Cli.Dashboard.History.{is_empty}
use rediq.Cli.Dashboard.Input.{
  KeyCode, up, down, left, right, enter, esc, other, char, new_list, with_selected, reported,
  pause_selected_queue, resume_selected_queue, flush_selected_queue, filled, entered,
  enter_task_list_view, on_char, previous_queue, following_queue, handle_main_input,
}
use rediq.Cli.Dashboard.Sound.{
  IsWithin, IsListed, IsSound, IsFine, shown_tasks-IsListed, HasList-help,
}

get_elem?-within :
    {A : Type 0} (l : List A) (i : ℕ)
    → is_empty l ≡ false
    → IsWithin i (length l)
    → (a : A) × (get_elem? l i ≡ some a)
get_elem?-within [] i e h = cc
get_elem?-within (x ∷ l) i e (inl z) = absurd (omega arith)
get_elem?-within (x ∷ l) zero e (inr h) = (x, refl)
get_elem?-within (x ∷ []) (suc i) e (inr h) = absurd (omega arith)
get_elem?-within (x ∷ y ∷ l) (suc i) e (inr h) = get_elem?-within (y ∷ l) i refl (inr (omega arith))

new_list-IsListed : (name : String) → IsListed (new_list name)
new_list-IsListed name = (refl, refl, inl refl, inr (refl, refl))

module _ {B F : Type 0} (codec : Codec B) (order : List String → List String) where
  selected-Yields :
      (instant : ℕ) (st : DashboardState F) (act : QueueStats → Prog B (Option (DashboardState F)))
      → IsSound st
      → ((q : QueueStats) → Yields order IsFine (act q))
      → Yields order IsFine (with_selected codec instant st act)
  selected-Yields instant st act h go = elim (Bool-cases (is_empty st.queues)) [
    | inl y ↦ rw y (
        pure-Yields order IsFine
          (some (set_operation_status st "No queues available" StatusType.warning instant)) h)
    | inr n ↦ let (q, e) = get_elem?-within st.queues st.selected_queue n h.0 in rw n (rw e (go q))
  ]

  reported-IsSound :
      {A : Type 0} (instant : ℕ) (st : DashboardState F) (done : A → String) (failed : String)
      (r : Result A)
      → IsSound st
      → IsSound (reported codec instant st done failed r)
  reported-IsSound instant st done failed (ok a) h = h
  reported-IsSound instant st done failed (err e) h = h

  reported-Yields :
      {A : Type 0} (instant : ℕ) (st : DashboardState F) (p : Prog B A) (done : A → String)
      (failed : String)
      → IsSound st
      → Yields order IsFine
          (do r ← attempt p; pure (some (reported codec instant st done failed r)))
  reported-Yields instant st p done failed h =
      attempt-Yields order IsFine p (λ r. pure (some (reported codec instant st done failed r)))
        (λ r.
          pure-Yields order IsFine (some (reported codec instant st done failed r))
            (reported-IsSound instant st done failed r h))

  filled-IsSound :
      (instant : ℕ) (st : DashboardState F) (name : String) (r : Result (List TaskInfo))
      → IsSound st
      → IsSound (filled codec instant st name r)
  filled-IsSound instant st name (ok tasks) (q, l, s) =
      (q, shown_tasks-IsListed codec (new_list name) tasks (new_list-IsListed name), s)
  filled-IsSound instant st name (err e) (q, l, s) = (q, new_list-IsListed name, s)

  entered-Yields :
      (instant : ℕ) (st : DashboardState F) (name : String) (r : Result (List TaskInfo))
      → IsSound st
      → Yields order IsFine (entered codec instant st name r)
  entered-Yields instant st name (err e) h =
      pure-Yields order IsFine
        (some (
          set_operation_status st ("Failed to list tasks for queue '" ++ (name ++ "'"))
            StatusType.error instant))
        h
  entered-Yields instant st name (ok first) h =
      attempt-Yields order IsFine (list_tasks codec name 20)
        (λ tasks. pure (some (filled codec instant st name tasks)))
        (λ tasks.
          pure-Yields order IsFine (some (filled codec instant st name tasks))
            (filled-IsSound instant st name tasks h))

  enter-Yields :
      (instant : ℕ) (st : DashboardState F)
      → IsSound st
      → Yields order IsFine (enter_task_list_view codec instant st)
  unfolding enter_task_list_view
  enter-Yields instant st h = selected-Yields instant st _ h (λ q.
      attempt-Yields order IsFine (list_tasks codec q.name 1) (entered codec instant st q.name)
        (λ first. entered-Yields instant st q.name first h))

  -- A value that is given at once.
  pub given-Yields :
      (st : DashboardState F) → IsSound st → Yields {B = B} order IsFine (pure (some st))
  given-Yields st h = pure-Yields order IsFine (some st) h

  on_char-Yields :
      (instant : ℕ) (st : DashboardState F) (c : ℕ)
      → IsSound st
      → Yields order IsFine (on_char codec instant st c)
  unfolding pause_selected_queue resume_selected_queue flush_selected_queue
  on_char-Yields instant st c h = elim (Bool-cases (c == b'p')) [
    | inl y ↦ rw y (
        selected-Yields instant st _ h (λ q. reported-Yields instant st (pause_queue q.name) _ _ h))
    | inr n ↦ rw n (elim (Bool-cases (c == b'r')) [
      | inl y ↦ rw y (
          selected-Yields instant st _ h
            (λ q. reported-Yields instant st (resume_queue q.name) _ _ h))
      | inr n ↦ rw n (elim (Bool-cases (c == b'f')) [
        | inl y ↦ rw y (
            selected-Yields instant st _ h
              (λ q. reported-Yields instant st (flush_queue q.name) _ _ h))
        | inr n ↦ rw n (elim (Bool-cases (c == b'?')) [
          | inl y ↦ rw y (
              given-Yields (record st { show_help = true; view_mode = ViewMode.help })
                (h.0, HasList-help st.view_mode st.task_list h.1, h.2))
          | inr n ↦ rw n (given-Yields st h)
        ])
      ])
    ])
  ]

  previous-IsSound :
      (instant : ℕ) (st : DashboardState F) → IsSound st → IsSound (previous_queue codec instant st)
  previous-IsSound instant st (q, l, s) = elim (Bool-cases (ltb 0 st.selected_queue)) [
    | inl y ↦ rw y (ground (arith, q, y), l, s)
    | inr n ↦ rw n (q, l, s)
  ]

  following-IsSound :
      (instant : ℕ) (st : DashboardState F)
      → IsSound st
      → IsSound (following_queue codec instant st)
  following-IsSound instant st (q, l, s) =
      elim (Bool-cases (ltb 0 (length st.queues) && ltb st.selected_queue (length st.queues - 1))) [
        | inl y ↦ rw y (inr (ground arith), l, s)
        | inr n ↦ rw n (q, l, s)
      ]

  pub handle_main_input-Yields :
      (instant : ℕ) (st : DashboardState F) (k : KeyCode)
      → IsSound st
      → Yields order IsFine (handle_main_input codec instant st k)
  unfolding handle_main_input
  handle_main_input-Yields instant st up h =
      given-Yields (previous_queue codec instant st) (previous-IsSound instant st h)
  handle_main_input-Yields instant st left h =
      given-Yields (previous_queue codec instant st) (previous-IsSound instant st h)
  handle_main_input-Yields instant st down h =
      given-Yields (following_queue codec instant st) (following-IsSound instant st h)
  handle_main_input-Yields instant st right h =
      given-Yields (following_queue codec instant st) (following-IsSound instant st h)
  handle_main_input-Yields instant st enter h = enter-Yields instant st h
  handle_main_input-Yields instant st (char c) h = on_char-Yields instant st c h
  handle_main_input-Yields instant st esc h = given-Yields (record st { operation_status = none }) h
  handle_main_input-Yields instant st other h = given-Yields st h

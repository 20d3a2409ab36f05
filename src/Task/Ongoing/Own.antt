-- ===== src/Task/Ongoing/Own.antt =====
-- Whose progress context a task gets (rediq/src/task/progress_ext.rs).
use rediq.Prelude.{str_eq, ◌≡◌, ◌↔◌, ap, sym, ◌∙◌, none, some, Bool-cases, inl, inr, eq_iff, arith}
use rediq.Task.{Task}
use rediq.Progress.{ProgressContext}
use rediq.Task.Ongoing.{Cell, own_context, progress}

own_context_iff :
    (t : Task) (held ctx : ProgressContext)
    → (own_context t held ≡ some ctx) ↔ ((held ≡ ctx) × (ctx.task_id ≡ t.id))
own_context_iff t held ctx = elim (Bool-cases (str_eq held.task_id t.id)) [
  | inl y ↦ rw y (
      let same : held.task_id ≡ t.id = (eq_iff held.task_id t.id).0 y in
      (
        λ e. let h : held ≡ ctx = cc in (h, sym (ap (λ (p : ProgressContext). p.task_id) h) ∙ same),
        λ (h, i). ap some h,
      ))
  | inr n ↦ rw n (
      (
        λ e. cc,
        λ (h, i).
            let same : held.task_id ≡ t.id = ap (λ (p : ProgressContext). p.task_id) h ∙ i in
            absurd (ground (arith, n, (eq_iff held.task_id t.id).1 same)),
      ))
]

-- A task gets a progress context exactly when the cell holds this context and it is of the task.
pub progress-eq-some_iff :
    (t : Task) (cell : Cell) (ctx : ProgressContext)
    → (progress t cell ≡ some ctx) ↔ ((cell ≡ some ctx) × (ctx.task_id ≡ t.id))
unfolding progress
progress-eq-some_iff t none ctx = ((λ e. cc), (λ (e, i). cc))
progress-eq-some_iff t (some held) ctx =
    let (to, from) = own_context_iff t held ctx in
    (λ e. let (h, i) = to e in (ap some h, i), λ (e, i). let h : held ≡ ctx = cc in from (h, i))

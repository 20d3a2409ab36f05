-- ===== src/Processor/Context/Reporting.antt =====
-- What a report of a handler changes (rediq/src/processor/context.rs, rediq/src/progress/mod.rs).
use rediq.Prelude.{ℕ, ◌≡◌, refl, ap, ◌∙◌, false, Option, none, some, arith, String, List}
use rediq.Errors.{Result}
use rediq.Keys.{Key, Family, key, key_eq}
use rediq.Redis.Keyspace.{Keyspace, effect}
use rediq.Redis.Server.{Server, outcome, outcome-eq-replay, replay}
use rediq.Progress.{ProgressContext, report, report_with_message}
use rediq.Processor.Context.{HandlerContext, report_progress, report_found}

module _ {B : Type 0} (order : List String → List String) (percentage instant now : ℕ)
    (c : HandlerContext) (ks : Keyspace B) (j : Key) where
  found_own :
      (progress : Option ProgressContext)
      → ((p : ProgressContext)
          → progress ≡ some p
          → key_eq (key Family.progress p.task_id) j ≡ false)
      → (replay order (report_found percentage instant now c progress) ks).1 j ≡ ks j
  unfolding replay effect report report_with_message
  found_own none h = refl
  found_own (some p) h = let n = h p refl in ground (arith, n)

-- A handler's `report_progress` changes no key but the progress of its own task, whether it is
-- refused, throttled, written or without a progress context, when the context's progress is of
-- this task.
pub report_progress_own :
    {B : Type 0} (s : Server B) (db : s.Db) (percentage instant now : ℕ) (c : HandlerContext)
    (j : Key)
    → ((p : ProgressContext) → c.progress ≡ some p → p.task_id ≡ c.task_id)
    → key_eq (key Family.progress c.task_id) j ≡ false
    → (outcome s (report_progress percentage instant now c) db).1 j ≡ s.view db j
unfolding report_progress
report_progress_own {B} s db percentage instant now c j own other =
    ap (λ (o : Result HandlerContext × Keyspace B). o.1 j)
      (outcome-eq-replay s (report_progress percentage instant now c) db)
    ∙ found_own s.order percentage instant now c (s.view db) j c.progress
        (λ p e. ap (λ i. key_eq (key Family.progress i) j) (own p e) ∙ other)

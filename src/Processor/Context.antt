-- ===== src/Processor/Context.antt =====
-- The context of a handler (rediq/src/processor/context.rs), without the client that it passes on. A
-- report gives the context back, as reports change the shared cells of its progress context.
pub mod Reporting
use rediq.Prelude.{ℕ, String, Bool, Option, none, some}
use rediq.Redis.{Prog, pure, ◌>>=◌}
use rediq.Progress.{ProgressContext, report}

pub record HandlerContext : Type 0 where
  pub task_id : String
  pub progress : Option ProgressContext
  pub cancelled : Bool

abbrev pub new_context : String → Option ProgressContext → Bool → HandlerContext
new_context id progress cancelled = record {
  task_id = id;
  progress = progress;
  cancelled = cancelled;
}

abbrev pub is_cancelled : HandlerContext → Bool
is_cancelled c = c.cancelled

module _ {B : Type 0} (percentage instant now : ℕ) where
  abbrev pub report_found : HandlerContext → Option ProgressContext → Prog B HandlerContext
  report_found c none = pure c
  report_found c (some p) = do
    p' ← report p percentage instant now
    pure (record c { progress = some p' })

  unfoldable pub report_progress : HandlerContext → Prog B HandlerContext
  report_progress c = report_found c c.progress

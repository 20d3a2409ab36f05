-- ===== src/Worker/Hooks.antt =====
-- What a failing middleware hook leaves behind (`process_task` of rediq/src/server/worker.rs).
use rediq.Prelude.{ℕ, String, ◌≡◌, ◌∙◌, List}
use rediq.Errors.{Error, err}
use rediq.Redis.{Value}
use rediq.Redis.Server.{Server, outcome, outcome-eq-replay, replay, replay-tried}
use rediq.Config.{RediqConfig}
use rediq.Task.{Task}
use rediq.Codec.{Codec}
use rediq.Progress.{new_progress, default_progress, report}
use rediq.Worker.{process_task, Handled}
use rediq.Worker.Settling.{IsHeld, started, starting}

module _ {B : Type 0} (codec : Codec B) (s : Server B) (worker_id : String) (cfg : RediqConfig)
    (db : s.Db) (t : Task) (handled : Handled) (instant now ttl : ℕ) (a : List String)
    (h p : List (String × Value B)) (held : IsHeld (s.view db) cfg t instant ttl a h p) where
  -- If a hook before the handler fails on a held task, `process_task` gives its error and only
  -- the progress 0 is written: the task stays among the active tasks and is neither acknowledged
  -- nor scheduled for a retry.
  pub process_task_refused :
      (e : Error)
      → outcome s (process_task codec cfg worker_id t (err e) handled instant now) db
        ≡ (err e, started s.order (s.view db) t.id p instant now held.late held.progress)
  unfolding process_task replay
  process_task_refused e =
      outcome-eq-replay s (process_task codec cfg worker_id t (err e) handled instant now) db
      ∙ replay-tried s.order (report (new_progress t.id default_progress instant) 0 instant now) _
          (s.view db) _ _ (starting s.order (s.view db) t.id p instant now held.late held.progress)

-- ===== src/Cli/Commands/Tasks.antt =====
-- The commands on tasks (rediq-cli/src/commands/task.rs).
use Prim.Native.String.{◌++◌}
use rediq.Prelude.{
  ℕ, ◌+◌, ◌-◌, ◌^◌, ltb, String, Bool, true, false, Option, none, some, List, [], ◌∷◌, show,
  if◌then◌else◌,
}
use rediq.Errors.{Result, ok, err, display}
use rediq.Redis.{Prog, pure, attempt, ◌>>=◌}
use rediq.Task.{status_text}
use rediq.Config.{RediqConfig}
use rediq.Codec.{Codec}
use rediq.Client.Queues
use rediq.Inspector
use rediq.Inspector.{TaskInfo, queue_stats, get_task}
use rediq.Cli.Commands.{Line, println, eprintln, field_line}

pub data TaskAction : Type 0 where
  list : String → ℕ → TaskAction
  inspect : String → TaskAction
  cancel retry : String → String → TaskAction

-- `max(0, 3 - retry_cnt as i32)`
abbrev pub retries_left : ℕ → ℕ
retries_left n =
    if ltb n (2 ^ 31)
    then 3 - n
    else if ltb (3 + (2 ^ 32 - n)) (2 ^ 31)
    then 3 + (2 ^ 32 - n)
    else 0

abbrev pub task_lines : List TaskInfo → List Line → List Line
task_lines [] more = more
task_lines (t ∷ ts) more =
    println ("    - " ++ (t.id ++ (" [" ++ (t.task_type ++ "]"))))
    ∷ field_line "      Status: " (status_text t.status)
    ∷ println ("      Retry: " ++ (show t.retry_cnt ++ ("/" ++ show (retries_left t.retry_cnt))))
    ∷ task_lines ts more

abbrev pub summary_lines : Inspector.QueueStats → List Line
summary_lines s =
    println "\n  Queue Summary:"
    ∷ field_line "    Pending: " (show s.pending)
    ∷ field_line "    Active: " (show s.active)
    ∷ field_line "    Delayed: " (show s.delayed)
    ∷ field_line "    Retry: " (show s.retried)
    ∷ field_line "    Dead: " (show s.dead)
    ∷ println "\n  Tip: Use 'rediq task inspect <id>' to see task details"
    ∷ []

abbrev pub number_line : String → Option ℕ → List Line → List Line
number_line name none more = more
number_line name (some n) more = field_line name (show n) ∷ more

abbrev pub text_line : String → Option String → List Line
text_line name none = []
text_line name (some s) = field_line name s ∷ []

abbrev pub detail_lines : Result TaskInfo → List Line
detail_lines (ok t) =
    field_line "  ID: " t.id
    ∷ field_line "  Type: " t.task_type
    ∷ field_line "  Queue: " t.queue
    ∷ field_line "  Status: " (status_text t.status)
    ∷ field_line "  Retry count: " (show t.retry_cnt)
    ∷ field_line "  Created at: " (show t.created_at)
    ∷ number_line "  Enqueued at: " t.enqueued_at
        (number_line "  Processed at: " t.processed_at (text_line "  Last error: " t.last_error))
detail_lines (err e) = eprintln ("Error: " ++ display e) ∷ []

abbrev pub cancel_lines : Result (Option String) → List Line
cancel_lines (ok (some status)) =
    println ("  ✓ Task cancelled successfully from " ++ (status ++ " queue")) ∷ []
cancel_lines (ok none) =
    println "  ! Task not found in any queue"
    ∷ println "    Checked: pending, active, delayed, retry, dead, priority"
    ∷ []
cancel_lines (err e) = eprintln ("Error: " ++ display e) ∷ []

abbrev pub retry_lines : String → Result Bool → List Line
retry_lines id (ok true) =
    println ("  ✓ Task '" ++ (id ++ "' successfully re-queued for processing"))
    ∷ println "    Retry count has been reset to 0"
    ∷ println "    Task status has been reset to Pending"
    ∷ []
retry_lines id (ok false) =
    println "  ! Task not found in dead queue"
    ∷ println "    The task may be in another state (pending, active, retry)"
    ∷ println ("    Use 'rediq task inspect " ++ (id ++ "' to check task status"))
    ∷ []
retry_lines id (err e) = eprintln ("Error: " ++ display e) ∷ []

module _ {B : Type 0} (codec : Codec B) where
  abbrev pub listed : String → Result (List TaskInfo) → Prog B (List Line)
  listed queue (err e) = pure (eprintln ("Error: " ++ display e) ∷ [])
  listed queue (ok []) = pure (println "  (No tasks in queue)" ∷ [])
  listed queue (ok (t ∷ ts)) = do
    stats ← queue_stats codec queue
    pure (println "  Pending tasks:" ∷ task_lines (t ∷ ts) (summary_lines stats))

  unfoldable pub list_tasks : String → ℕ → Prog B (List Line)
  list_tasks queue limit = do
    tasks ← attempt (Inspector.list_tasks codec queue limit)
    lines ← listed queue tasks
    pure (
        println ("Tasks in queue '" ++ (queue ++ ("' (showing max " ++ (show limit ++ "):"))))
        ∷ lines)

  unfoldable pub inspect_task : String → Prog B (List Line)
  inspect_task id = do
    task ← attempt (get_task codec id)
    pure (println ("Task Details: " ++ id) ∷ detail_lines task)

  unfoldable pub cancel_task : String → String → Prog B (List Line)
  cancel_task id queue = do
    status ← attempt (Queues.cancel_task id queue)
    pure
        (println ("Cancel task: " ++ (id ++ (" (queue: " ++ (queue ++ ")")))) ∷ cancel_lines status)

module _ {B : Type 0} (codec : Codec B) (cfg : RediqConfig) where
  unfoldable pub retry_task : String → String → Prog B (List Line)
  retry_task id queue = do
    moved ← attempt (Queues.retry_task codec cfg id queue)
    pure
        (println ("Retry task: " ++ (id ++ (" (queue: " ++ (queue ++ ")")))) ∷ retry_lines id moved)

  unfoldable pub handle_task : TaskAction → Prog B (List Line)
  handle_task (list queue limit) = list_tasks codec queue limit
  handle_task (inspect id) = inspect_task codec id
  handle_task (cancel id queue) = cancel_task codec id queue
  handle_task (retry id queue) = retry_task id queue

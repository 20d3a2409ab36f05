-- ===== src/Cli/Commands/Workers.antt =====
-- The commands on workers (rediq-cli/src/commands/worker.rs). How Rust writes a list for debugging is an
-- argument.
use Prim.Native.String.{◌++◌}
use rediq.Prelude.{String, Bool, true, false, List, [], ◌∷◌, show, join}
use rediq.Errors.{Result, ok, err, display}
use rediq.Redis.{Prog, pure, attempt, ◌>>=◌}
use rediq.Codec.{Codec}
use rediq.Inspector
use rediq.Inspector.{WorkerInfo, get_worker}
use rediq.Cli.Commands.{Line, println, eprintln, field_line}

pub data WorkerAction : Type 0 where
  list : WorkerAction
  inspect stop : String → WorkerAction

abbrev pub each_worker : List WorkerInfo → List Line
each_worker [] = []
each_worker (w ∷ ws) =
    field_line "  - " w.id
    ∷ field_line "    Server: " w.server_name
    ∷ field_line "    Queues: " (join ", " w.queues)
    ∷ field_line "    Status: " w.status
    ∷ field_line "    Processed: " (show w.processed_total)
    ∷ println ""
    ∷ each_worker ws

abbrev pub worker_lines : Result (List WorkerInfo) → List Line
worker_lines (ok []) = println "  (No workers registered)" ∷ []
worker_lines (ok (w ∷ ws)) = each_worker (w ∷ ws)
worker_lines (err e) = eprintln ("Error: " ++ display e) ∷ []

abbrev pub detail_lines : (List String → String) → Result WorkerInfo → List Line
detail_lines debug (ok w) =
    field_line "  ID: " w.id
    ∷ field_line "  Server: " w.server_name
    ∷ field_line "  Queues: " (debug w.queues)
    ∷ field_line "  Status: " w.status
    ∷ field_line "  Started at: " (show w.started_at)
    ∷ field_line "  Last heartbeat: " (show w.last_heartbeat)
    ∷ field_line "  Processed total: " (show w.processed_total)
    ∷ []
detail_lines debug (err e) = eprintln ("Error: " ++ display e) ∷ []

abbrev pub stop_lines : Result Bool → List Line
stop_lines (ok true) =
    println "  ✓ Worker shutdown signal sent"
    ∷ println "    The worker will finish its current task and exit"
    ∷ []
stop_lines (ok false) =
    println "  ! Worker not found" ∷ println "    The worker may have already exited" ∷ []
stop_lines (err e) = eprintln ("Error: " ++ display e) ∷ []

module _ {B : Type 0} (codec : Codec B) (debug : List String → String) where
  unfoldable pub list_workers : Prog B (List Line)
  list_workers = do
    workers ← attempt (Inspector.list_workers codec)
    pure (println "Worker List" ∷ worker_lines workers)

  unfoldable pub inspect_worker : String → Prog B (List Line)
  inspect_worker id = do
    worker ← attempt (get_worker codec id)
    pure (println ("Worker Details: " ++ id) ∷ detail_lines debug worker)

  unfoldable pub stop_worker : String → Prog B (List Line)
  stop_worker id = do
    stopped ← attempt (Inspector.stop_worker id)
    pure (println ("Stop worker: " ++ id) ∷ stop_lines stopped)

  unfoldable pub handle_worker : WorkerAction → Prog B (List Line)
  handle_worker list = list_workers
  handle_worker (inspect id) = inspect_worker id
  handle_worker (stop id) = stop_worker id

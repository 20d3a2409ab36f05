-- ===== src/Cli/Commands/Queues.antt =====
-- The commands on queues and their statistics (rediq-cli/src/commands/queue.rs, stats.rs).
use Prim.Native.String.{◌++◌}
use rediq.Prelude.{String, List, [], ◌∷◌, show}
use rediq.Redis.{Prog, pure, ◌>>=◌, ◌>>◌}
use rediq.Codec.{Codec}
use rediq.Inspector
use rediq.Inspector.{queue_stats}
use rediq.Client.Queues.{flush_queue}
use rediq.Client.Queues
use rediq.Cli.Commands.{Line, println, field_line}

pub data QueueAction : Type 0 where
  list : QueueAction
  inspect pause resume flush : String → QueueAction

abbrev pub name_lines : List String → List Line
name_lines [] = []
name_lines (q ∷ qs) = println ("  - " ++ q) ∷ name_lines qs

abbrev pub queue_lines : List String → List Line
queue_lines [] = println "  (No queues)" ∷ []
queue_lines (q ∷ qs) = name_lines (q ∷ qs)

abbrev pub count_lines : Inspector.QueueStats → List Line
count_lines s =
    field_line "  Pending: " (show s.pending)
    ∷ field_line "  Active: " (show s.active)
    ∷ field_line "  Delayed: " (show s.delayed)
    ∷ field_line "  Retry: " (show s.retried)
    ∷ field_line "  Dead: " (show s.dead)
    ∷ field_line "  Completed: " (show s.completed)
    ∷ []

module _ {B : Type 0} (codec : Codec B) where
  unfoldable pub list_queues : Prog B (List Line)
  list_queues = do queues ← Inspector.list_queues; pure (println "Queue List" ∷ queue_lines queues)

  unfoldable pub inspect_queue : String → Prog B (List Line)
  inspect_queue name = do
    stats ← queue_stats codec name
    pure (println ("Queue Details: " ++ name) ∷ count_lines stats)

  unfoldable pub pause_queue : String → Prog B (List Line)
  pause_queue name = do
    Queues.pause_queue name
    pure (println ("Queue '" ++ (name ++ "' paused")) ∷ [])

  unfoldable pub resume_queue : String → Prog B (List Line)
  resume_queue name = do
    Queues.resume_queue name
    pure (println ("Queue '" ++ (name ++ "' resumed")) ∷ [])

  unfoldable pub flush_lines : String → Prog B (List Line)
  flush_lines name = do
    count ← flush_queue name
    pure (println ("Queue '" ++ (name ++ ("' flushed, removed " ++ (show count ++ " tasks")))) ∷ [])

  unfoldable pub handle_queue : QueueAction → Prog B (List Line)
  handle_queue list = list_queues
  handle_queue (inspect name) = inspect_queue name
  handle_queue (pause name) = pause_queue name
  handle_queue (resume name) = resume_queue name
  handle_queue (flush name) = flush_lines name

  unfoldable pub show_stats : String → Prog B (List Line)
  show_stats name = do
    stats ← queue_stats codec name
    pure (println "Statistics" ∷ field_line "  Queue: " stats.name ∷ count_lines stats)

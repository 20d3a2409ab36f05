-- ===== src/Cli/Commands/Purging.antt =====
-- The command that looks for stale metadata (rediq-cli/src/commands/purge.rs). It removes nothing
-- itself: it prints what to run.
use Prim.Native.String.{◌++◌}
use rediq.Prelude.{
  ℕ, ◌+◌, ◌-◌, ltb, ◌==◌, ◌&&◌, not, String, Bool, true, false, List, [], ◌∷◌, show, if◌then◌else◌,
}
use rediq.Redis.{Prog, pure, ◌>>=◌}
use rediq.Codec.{Codec}
use rediq.Inspector.{QueueStats, WorkerInfo, list_workers, list_queues, queue_stats}
use rediq.Cli.Utils.{
  RedisConnectionInfo, parse_redis_url, build_redis_cli_args, print_redis_command,
}
use rediq.Cli.Commands.{Line, println, appended_lines}

-- The indent of `print_redis_command_indented` is two everywhere.
abbrev pub command_line : RedisConnectionInfo → String → Line
command_line info cmd = println (print_redis_command info cmd)

abbrev pub all_lines : RedisConnectionInfo → List Line
all_lines info =
    println "⚠\u{fe0f}  Purging ALL Rediq metadata..."
    ∷ println ""
    ∷ println "To purge all metadata, run:"
    ∷ command_line info "DEL \"rediq:meta:workers\""
    ∷ command_line info "DEL \"rediq:meta:queues\""
    ∷ println ""
    ∷ println "Or flush the entire database:"
    ∷ command_line info "FLUSHDB"
    ∷ []

abbrev pub is_stale : ℕ → WorkerInfo → Bool
is_stale now w = ltb 120 (now - w.last_heartbeat)

abbrev pub stale_lines : ℕ → List WorkerInfo → List Line → List Line
stale_lines now [] more = more
stale_lines now (w ∷ ws) more =
    let rest = stale_lines now ws more in
    if is_stale now w
    then println (
        "  - Found stale worker: "
        ++ (w.id ++ (" (last heartbeat " ++ (show (now - w.last_heartbeat) ++ "s ago)"))))
      ∷ rest
    else rest

abbrev pub count_stale : ℕ → List WorkerInfo → ℕ
count_stale now [] = 0
count_stale now (w ∷ ws) = (if is_stale now w then 1 else 0) + count_stale now ws

abbrev pub stale_end : RedisConnectionInfo → ℕ → List Line
stale_end info count =
    if ltb 0 count
    then println ""
      ∷ println "  To remove stale workers, run:"
      ∷ command_line info "DEL \"rediq:meta:workers\""
      ∷ println (
          "      redis-cli "
          ++ (build_redis_cli_args info
              ++ (" --scan --pattern 'rediq:meta:worker:*' | xargs -L 1 redis-cli "
                  ++ (build_redis_cli_args info ++ " DEL"))))
      ∷ []
    else println "  ✓ No stale workers found" ∷ []

abbrev pub has_nothing : QueueStats → Bool
has_nothing s = s.pending == 0 && s.active == 0 && s.delayed == 0 && s.retried == 0 && s.dead == 0

abbrev pub empty_end : RedisConnectionInfo → List Line → List Line
empty_end info [] = println "  ✓ No empty queues found" ∷ []
empty_end info (l ∷ ls) = appended_lines (l ∷ ls) (
    println ""
    ∷ println "  To remove empty queues from metadata, run:"
    ∷ command_line info "SREM \"rediq:meta:queues\" \"<queue-name>\""
    ∷ [])

abbrev pub usage_lines : List Line
usage_lines =
    println "Purge stale metadata from Redis"
    ∷ println ""
    ∷ println "Usage: rediq purge [--workers] [--queues] [--all]"
    ∷ println "  --workers   Show stale workers (no heartbeat in 2+ minutes)"
    ∷ println "  --queues    Show empty queues"
    ∷ println "  --all       Show commands to purge all metadata"
    ∷ println ""
    ∷ println "Examples:"
    ∷ println "  rediq purge --workers    # List stale workers"
    ∷ println "  rediq purge --queues     # List empty queues"
    ∷ println "  rediq purge --all        # Show purge commands"
    ∷ []

module _ {B : Type 0} (codec : Codec B) where
  -- The lines of the empty ones.
  abbrev pub empty_queues : List String → Prog B (List Line)
  empty_queues [] = pure []
  empty_queues (q ∷ qs) = do
    stats ← queue_stats codec q
    rest ← empty_queues qs
    pure (if has_nothing stats then println ("  - Found empty queue: " ++ q) ∷ rest else rest)

  abbrev pub purge_workers : Bool → RedisConnectionInfo → ℕ → Prog B (List Line)
  purge_workers false info now = pure []
  purge_workers true info now = do
    ws ← list_workers codec
    pure (
        println "Purging stale worker metadata..."
        ∷ stale_lines now ws (stale_end info (count_stale now ws)))

  abbrev pub purge_queues : Bool → RedisConnectionInfo → Prog B (List Line)
  purge_queues false info = pure []
  purge_queues true info = do
    names ← list_queues
    lines ← empty_queues names
    pure (println "Purging empty queue metadata..." ∷ empty_end info lines)

  abbrev pub purge_some : RedisConnectionInfo → Bool → Bool → ℕ → Prog B (List Line)
  purge_some info workers queues now = do
    stale ← purge_workers workers info now
    empty ← purge_queues queues info
    pure (
        appended_lines stale
          (appended_lines empty (if not workers && not queues then usage_lines else [])))

  unfoldable pub handle_purge : String → Bool → Bool → Bool → ℕ → Prog B (List Line)
  handle_purge redis_url workers queues true now = pure (all_lines (parse_redis_url redis_url))
  handle_purge redis_url workers queues false now =
      purge_some (parse_redis_url redis_url) workers queues now

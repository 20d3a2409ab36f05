-- ===== src/Cli/Commands.antt =====
-- The commands of rediq-cli (rediq-cli/src/commands): the lines that they print. What a command has
-- printed before it fails is not kept.
pub mod Queues
pub mod Tasks
pub mod Workers
pub mod Purging
pub mod Untouched
use Prim.Native.String.{◌++◌}
use rediq.Prelude.{ℕ, String, List, [], ◌∷◌, show}
use rediq.Inspector.{QueueStats}

-- A line to the output, or to the errors.
pub data Line : Type 0 where
  println eprintln : String → Line

abbrev pub field_line : String → String → Line
field_line name value = println (name ++ value)

abbrev pub appended_lines : List Line → List Line → List Line
appended_lines [] more = more
appended_lines (l ∷ ls) more = l ∷ appended_lines ls more

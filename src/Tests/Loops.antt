-- ===== src/Tests/Loops.antt =====
-- The theorems on the loops of workers, schedulers and the janitor at concrete data.
use rediq.Prelude.{
  ℕ, zero, suc, ◌<◌, ◌+◌, String, true, false, ◌≡◌, ◌≢◌, refl, some, none, List, [], ◌∷◌, length,
  get_elem?, arith,
}
use rediq.Errors.{ok}
use rediq.Redis.Server.{outcome, memory}
use rediq.Redis.Scan.{Scans}
use rediq.Worker.Turns
use rediq.Worker.Turns.{turn}
use rediq.Janitor.{default_janitor, cleanup}
use rediq.Janitor.Ending
use rediq.Janitor.Sparing
use rediq.Janitor.Sparing.{Spares}
use rediq.Tests.Samples.{with_letters}

abbrev three_queues : List String
three_queues = "a" ∷ "b" ∷ "c" ∷ []

-- The sixth round is on the third of three queues; the queue "a" comes one round later.
every_queue_served_example :
    (k : ℕ) × (k < length three_queues) × (turn three_queues 5 k ≡ get_elem? three_queues 0)
every_queue_served_example = Turns.every_queue_served three_queues 5 0 (omega arith) (omega arith)

-- The page announces another one, except the third.
abbrev three_pages : Scans
three_pages (suc (suc zero)) = some (ok (record { has_more = false; results = "x" ∷ [] }))
three_pages n = some (ok (record { has_more = true; results = "x" ∷ [] }))

abbrev pub more_pages : Scans
more_pages n = some (ok (record { has_more = true; results = "x" ∷ [] }))

cleanup_ends_example :
    (outcome memory (cleanup default_janitor three_pages (2 + 1)) with_letters).0 ≢ ok none
cleanup_ends_example = Ending.cleanup_ends default_janitor three_pages 2 memory with_letters refl

cleanup_endless_example :
    outcome memory (cleanup default_janitor more_pages 7) with_letters ≡ (ok none, with_letters)
cleanup_endless_example =
    Ending.cleanup_endless default_janitor ("x" ∷ []) (omega arith) more_pages 7 memory with_letters
      (λ n. refl) (refl, tt)

cleanup-Spares_example :
    Spares default_janitor with_letters
      (outcome memory (cleanup default_janitor three_pages 7) with_letters)
cleanup-Spares_example = Sparing.cleanup-Spares default_janitor three_pages 7 memory with_letters

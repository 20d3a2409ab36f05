-- ===== src/Aggregator/Registry.antt =====
-- What the manager knows of a group, and what the aggregator of first tasks gives
-- (rediq/src/aggregator/mod.rs).
use rediq.Prelude.{String, ◌≡◌, refl, some, List, [], ◌∷◌, snoc}
use rediq.Errors.{ok}
use rediq.Task.{Task}
use rediq.Aggregator.{first_task}

-- `FirstTaskAggregator` gives the last task of a group.
pub first_task-snoc :
    (group : String) (ts : List Task) (t : Task) → first_task group (snoc ts t) ≡ ok (some t)
unfolding first_task
first_task-snoc group [] t = refl
first_task-snoc group (u ∷ []) t = refl
first_task-snoc group (u ∷ v ∷ ts) t = first_task-snoc group (v ∷ ts) t

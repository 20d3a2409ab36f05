-- ===== src/Tests/Workers.antt =====
-- The theorems on the worker, the dependencies and the progress reports at concrete data.
use rediq.Prelude.{
  ℕ, pos, String, ◌≡◌, ◌↔◌, ◌<◌, refl, ap, Option, none, some, List, [], ◌∷◌, true, arith,
}
use rediq.Errors.{Result, ok, err, display}
use rediq.Keys.{Family, key}
use rediq.Redis.{Value, text, bytes}
use rediq.Redis.Keyspace.{list, zset, Keyspace, rank, unrank}
use rediq.Redis.Server.{outcome, memory}
use rediq.Config.{default_config}
use rediq.Task.{Task, TaskStatus, from_secs, can_retry, retry_delay}
use rediq.Worker.{dequeue_task, process_task, failed_once, finished, acknowledged}
use rediq.Worker.Attempts.{failures}
use rediq.Dependencies.{check_one, fail_one, failed_dependent}
use rediq.Progress.{ProgressContext, new_progress, default_progress}
use rediq.Worker.Dequeue
use rediq.Worker.Settling
use rediq.Worker.Settling.{IsHeld}
use rediq.Worker.Attempts
use rediq.Dependencies.Readiness
use rediq.Dependencies.Failure
use rediq.Tests.Samples.{
  Blob, packed, plain, codec, mail, with_waiting, with_active, with_pending, broken,
}

abbrev pub stored_mail : List (String × Value Blob)
stored_mail = ("data", bytes (packed mail)) ∷ ("queue", text "mail") ∷ []

dequeue_first_example :
    (outcome memory (dequeue_task codec 2 "mail" 101) with_waiting).1 (key Family.active "mail")
    ≡ some (list ("a1" ∷ []), none)
dequeue_first_example =
    ap (λ (o : Result (Option Task) × Keyspace Blob). o.1 (key Family.active "mail"))
      (Dequeue.dequeue_first codec memory with_waiting 2 "mail" 101 "a1" ("b2" ∷ []) [] stored_mail
        (packed mail) mail refl refl refl
        (record { held = refl; has_data = refl; read = refl; unpacks = refl }))

pub held : IsHeld with_active default_config mail 5000 86399 ("a1" ∷ []) stored_mail []
held = record { late = omega arith; lives = refl; actives = refl; details = refl; progress = refl }

-- The first retry is due four seconds later.
process_task_retried_example :
    (outcome memory
        (process_task codec default_config "w" mail (ok tt) (finished (err broken)) 5000 100)
        with_active).1
      (key Family.retry "mail")
    ≡ some (zset (("a1", pos 104) ∷ []), none)
unfolding rank unrank can_retry retry_delay
process_task_retried_example =
    ap (λ (o : Result (Unit {0}) × Keyspace Blob). o.1 (key Family.retry "mail"))
      (Settling.process_task_retried codec memory "w" default_config with_active mail
        (finished (err broken)) 5000 100 86399 ("a1" ∷ []) stored_mail [] held broken
        (packed (
          acknowledged codec "w" (failed_once mail broken) TaskStatus.retry
            (some (display broken))))
        (from_secs 4) [] refl refl refl refl refl)

abbrev tired_mail : Task
tired_mail = record mail { retry_cnt = 2 }

held_tired : IsHeld with_active default_config tired_mail 5000 86399 ("a1" ∷ []) stored_mail []
held_tired = record {
  late = omega arith;
  lives = refl;
  actives = refl;
  details = refl;
  progress = refl;
}

-- Nothing is in the queue's dead tasks behind the last failure.
process_task_buried_example :
    (outcome memory
        (process_task codec default_config "w" tired_mail (ok tt) (finished (err broken)) 5000 100)
        with_active).1
      (key Family.dead "mail")
    ≡ none
unfolding can_retry
process_task_buried_example =
    ap (λ (o : Result (Unit {0}) × Keyspace Blob). o.1 (key Family.dead "mail"))
      (Settling.process_task_buried codec memory "w" default_config with_active tired_mail
        (finished (err broken)) 5000 100 86399 ("a1" ∷ []) stored_mail [] held_tired broken
        (packed (
          acknowledged codec "w" (failed_once tired_mail broken) TaskStatus.dead
            (some (display broken))))
        refl refl refl refl)

can_retry-failures_example : (can_retry (failures 2 mail broken) ≡ true) ↔ (2 < 3)
can_retry-failures_example = Attempts.can_retry-failures 2 mail broken refl (omega arith)

check_one_ready_example :
    (outcome memory (check_one codec "p" "a1") with_pending).1 (key Family.queue "mail")
    ≡ some (list ("a1" ∷ []), none)
check_one_ready_example =
    ap (λ (o : Result ℕ × Keyspace Blob). o.1 (key Family.queue "mail"))
      (Readiness.check_one_ready codec memory with_pending "p" "a1" ("p" ∷ []) refl stored_mail
        (text "mail") (plain "mail") "mail" [] refl refl refl refl refl refl)

fail_one_buries_example :
    (outcome memory (fail_one codec "p" "mail" "a1") with_pending).1 (key Family.dead "mail")
    ≡ some (list ("a1" ∷ []), none)
fail_one_buries_example =
    ap (λ (o : Result ℕ × Keyspace Blob). o.1 (key Family.dead "mail"))
      (Failure.fail_one_buries codec memory with_pending "p" "mail" "a1" stored_mail
        (bytes (packed mail)) (packed mail) (packed (failed_dependent "p" mail)) mail [] refl refl
        refl refl refl refl)

abbrev context : ProgressContext
context = new_progress "a1" default_progress 5000

-- ===== src/Tests/Routes.antt =====
-- The theorems on the multiplexer, batches, hooks and the two dequeueing functions at concrete data.
use rediq.Prelude.{ℕ, ◌≡◌, refl, ap, Option, none, some, [], ◌∷◌}
use rediq.Errors.{Result, ok, err, redis, wrong_type}
use rediq.Keys.{Family, key}
use rediq.Redis.{◌>>◌}
use rediq.Redis.Keyspace.{list, Keyspace}
use rediq.Redis.Server.{outcome, memory, empty}
use rediq.Config.{default_config}
use rediq.Task.{Task}
use rediq.Client.Batch.{enqueue_batch}
use rediq.Client.Batch.Reading
use rediq.Processor.{Mux}
use rediq.Worker.{dequeue_task, dequeue_task_any, process_task, finished}
use rediq.Worker.Hooks
use rediq.Worker.Fallback
use rediq.Tests.Samples.{Blob, packed, codec, mail, with_waiting, with_active, broken}
use rediq.Tests.Workers.{held, stored_mail}

enqueue_batch-dequeue_example :
    (outcome memory
      (do enqueue_batch codec default_config (λ l. l) (mail ∷ []); dequeue_task codec 2 "mail" 101)
      empty).0
    ≡ err (redis wrong_type)
enqueue_batch-dequeue_example =
    ap (λ (o : Result (Option Task) × Keyspace Blob). o.0)
      (Reading.enqueue_batch-dequeue codec default_config (λ l. l) memory empty mail (packed mail)
        86399 refl refl refl refl [] [] 2 101 refl refl refl refl)

-- A handler is what it gives.
abbrev obey : Result (Unit {0}) → Task → ℕ → Result (Unit {0})
obey r t ctx = r

abbrev mux : Mux (Result (Unit {0}))
mux = record { handlers = ("email:send", ok tt) ∷ []; default_handler = some (err broken) }

-- The task is among the active ones still.
process_task_refused_example :
    (outcome memory
        (process_task codec default_config "w" mail (err broken) (finished (ok tt)) 5000 100)
        with_active).1
      (key Family.active "mail")
    ≡ some (list ("a1" ∷ []), none)
process_task_refused_example =
    ap (λ (o : Result (Unit {0}) × Keyspace Blob). o.1 (key Family.active "mail"))
      (Hooks.process_task_refused codec memory "w" default_config with_active mail
        (finished (ok tt)) 5000 100 86399 ("a1" ∷ []) stored_mail [] held broken)

dequeue_task_any-falls_back_example :
    outcome memory (dequeue_task_any codec default_config 2 "mail" 101) with_waiting
    ≡ outcome memory (dequeue_task codec 2 "mail" 101) with_waiting
dequeue_task_any-falls_back_example =
    Fallback.dequeue_task_any-falls_back codec memory with_waiting default_config "mail" 101 refl 2

-- ===== src/Tests/Clients.antt =====
-- The theorems on the client at concrete data.
use rediq.Prelude.{ℕ, pos, String, ◌≡◌, refl, ap, Option, none, some, [], ◌∷◌, Bool}
use rediq.Errors.{Result, ok, err, validation}
use rediq.Keys.{Family, key}
use rediq.Redis.{text, bytes, ◌>>◌}
use rediq.Redis.Keyspace.{Entry, list, zset, Keyspace, rank, unrank}
use rediq.Redis.Server.{outcome, memory, empty}
use rediq.Config.{default_config}
use rediq.Task.{Task}
use rediq.Client.{enqueue, enqueue_priority}
use rediq.Client.Queues.{retry_task, reset}
use rediq.Client.Enqueueing
use rediq.Client.Enqueueing.{IsNew}
use rediq.Client.Managing
use rediq.Worker.{dequeue_task, activated}
use rediq.System.RoundTrip
use rediq.Tests.Samples.{
  Blob, packed, codec, codec-IsFaithful, mail, unique_mail, urgent_unique_mail, with_claim,
  with_dead,
}

abbrev Seen : Type 0
Seen = Result String × Keyspace Blob

-- What is kept under a key after a run.
abbrev kept : Family → String → Seen → Option (Entry Blob × Option ℕ)
kept f n o = o.1 (key f n)

new :
    (t : Task) (ks : Keyspace Blob)
    → ks (key Family.task t.id) ≡ none
    → IsNew codec default_config ks t (packed t) 86399
new t ks h = record { fresh = h; packs = refl; lives = refl }

enqueue-dequeue_example :
    (outcome memory
      (do enqueue codec default_config mail 100; dequeue_task codec 2 "mail" 101)
      empty).0
    ≡ ok (some (activated codec mail 101))
enqueue-dequeue_example =
    RoundTrip.enqueue-dequeue codec codec-IsFaithful default_config memory empty mail 100
      (packed mail) 86399 (new mail empty refl)
      (record { alone = refl; common = refl; single = refl; unranked = refl }) 2 101 [] [] refl refl
      refl refl

enqueue_plain_example :
    kept Family.queue "mail" (outcome memory (enqueue codec default_config mail 100) empty)
    ≡ some (list ("a1" ∷ []), none)
enqueue_plain_example = ap (kept Family.queue "mail") (
    Enqueueing.enqueue_plain codec default_config memory empty mail 100 (packed mail) 86399
      (new mail empty refl) [] [] refl refl refl refl refl refl)

enqueue_duplicate_example :
    (outcome memory (enqueue codec default_config unique_mail 100) with_claim).0
    ≡ err (validation "duplicate task detected: unique key '{}' already exists in queue '{}'")
enqueue_duplicate_example =
    ap (λ (o : Seen). o.0)
      (Enqueueing.enqueue_duplicate codec default_config memory with_claim unique_mail 100
        (packed unique_mail) 86399 (new unique_mail with_claim refl) [] ("once" ∷ []) "once" refl
        refl refl refl refl)

-- The refused task is in the priority queue.
enqueue_priority_duplicate_example :
    kept Family.priority_queue "mail"
      (outcome memory (enqueue_priority codec default_config urgent_unique_mail) with_claim)
    ≡ some (zset (("a1", pos 7) ∷ []), none)
unfolding rank unrank
enqueue_priority_duplicate_example = ap (kept Family.priority_queue "mail") (
    Enqueueing.enqueue_priority_duplicate codec default_config memory with_claim urgent_unique_mail
      100 (packed urgent_unique_mail) 86399 (new urgent_unique_mail with_claim refl) [] refl refl
      ("once" ∷ []) "once" refl refl refl)

retry_task_requeues_example :
    (outcome memory (retry_task codec default_config "a1" "mail") with_dead).1
      (key Family.dead "mail")
    ≡ some (list ("z" ∷ []), none)
retry_task_requeues_example =
    ap (λ (o : Result Bool × Keyspace Blob). o.1 (key Family.dead "mail"))
      (Managing.retry_task_requeues memory with_dead "mail" codec default_config "a1"
        ("z" ∷ "a1" ∷ []) refl (("data", bytes (packed mail)) ∷ ("queue", text "mail") ∷ [])
        (packed mail) (packed (reset mail)) mail 86399 [] refl
        (record { held = refl; has_data = refl; read = refl; unpacks = refl }) refl refl refl)

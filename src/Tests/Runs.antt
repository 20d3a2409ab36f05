-- ===== src/Tests/Runs.antt =====
-- A run of the whole system, and the theorems on reachable states at it.
use rediq.Prelude.{some, ◌≡◌, refl, List, [], ◌∷◌}
use rediq.Errors.{ok}
use rediq.Keys.{Family, key}
use rediq.Redis.{◌>>◌, Prog, call, done}
use rediq.Redis.Keyspace.{as_list, Keyspace, effect}
use rediq.Redis.Server.{outcome, memory, empty}
use rediq.Config.{default_config}
use rediq.Client.{enqueue}
use rediq.System.{Operation, program, World, start, send_next, Reaches, here, next}
use rediq.System.Waiting
use rediq.Dependencies.{check_dependents}
use rediq.Task.{Task, default_options}
use rediq.System.Steps
use rediq.Redis.Kinds.{IsTyped}
use rediq.Tests.Samples.{with_options, codec-IsFaithful, Blob, packed, codec, urgent_mail}
use rediq.Tests.Schedules.{minutely}

-- The first operation sends its next command.
abbrev sent : Keyspace Blob → List (Prog Blob (Unit {0})) → World Blob
sent ks (call c k ∷ ps) = record {
  data_held = (effect (λ l. l) c ks).1;
  running = k (effect (λ l. l) c ks).0 ∷ ps;
}
sent ks ps = record { data_held = ks; running = ps }

abbrev first : World Blob
first = record { data_held = empty; running = [] }

abbrev IsReached : World Blob → Type 0
IsReached w = Reaches codec default_config minutely (λ l. l) first w

sent-IsReached :
    (ks : Keyspace Blob) (ps : List (Prog Blob (Unit {0})))
    → IsReached (record { data_held = ks; running = ps })
    → IsReached (sent ks ps)
sent-IsReached ks [] r = r
sent-IsReached ks (done x ∷ ps) r = r
sent-IsReached ks (call c k ∷ ps) r = next r (send_next [] ps c k ks)

abbrev advanced : World Blob → World Blob
advanced w = sent w.data_held w.running

-- The task is stored, gets its expiry and is ranked.
abbrev begun : World Blob
begun = record {
  data_held = empty;
  running = program codec default_config minutely (Operation.ranks urgent_mail) ∷ [];
}

abbrev ranked : World Blob
ranked = advanced (advanced (advanced begun))

ranked-IsReached : IsReached ranked
ranked-IsReached = sent-IsReached _ _ (
    sent-IsReached _ _
      (sent-IsReached _ _ (next here (start (Operation.ranks urgent_mail) empty []))))

reached-IsTyped_example : IsTyped ranked.data_held
reached-IsTyped_example =
    Steps.reached-IsTyped codec default_config minutely (λ l. l) ranked ranked-IsReached

abbrev second_mail : Task
second_mail = with_options (record default_options { depends_on = some ("p1" ∷ []) })

enqueue-check_dependents_example :
    ((outcome memory
        (do enqueue codec default_config second_mail 100; check_dependents codec "p1")
        empty).0
      ≡ ok 1)
    × (as_list (
          (outcome memory
              (do enqueue codec default_config second_mail 100; check_dependents codec "p1")
              empty).1
            (key Family.queue "mail"))
        ≡ some ("a1" ∷ []))
enqueue-check_dependents_example =
    Waiting.enqueue-check_dependents codec codec-IsFaithful default_config memory empty second_mail
      100 (packed second_mail) 86399 (record { fresh = refl; packs = refl; lives = refl }) "p1" refl
      refl refl [] refl

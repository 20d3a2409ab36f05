-- ===== src/System/ProperQueues.antt =====
-- Cancelling and retrying send only proper commands.
use rediq.Prelude.{
  ltb, String, List, [], ◌∷◌, Option, none, some, Bool, true, false, refl, ◌≡◌, contains,
  if◌then◌else◌,
}
use rediq.Errors.{ok, err}
use rediq.Keys.{Family}
use rediq.Redis.{Prog, done, ◌>>◌, Value, pure}
use rediq.Redis.Kinds.{Proper, Kind, kind}
use rediq.Redis.Sends.{Sends-bind}
use rediq.Config.{RediqConfig}
use rediq.Task.{Task}
use rediq.Codec.{Codec}
use rediq.Client.Queues.{
  cancel_task, cancel_from, queue_checks, forget, release, cancel_task_with_unique, retry_task,
  retry_found, read_found, unpack_found, requeue, reset,
}
use rediq.System.Proper.{IsProper}

-- The kind of the key suits the flag of its check.
abbrev Suits : List (Family × String × Bool) → Type 0
Suits [] = Unit
Suits ((f, _, true) ∷ l) = (kind f ≡ Kind.zsets) × Suits l
Suits ((f, _, false) ∷ l) = (kind f ≡ Kind.lists) × Suits l

module _ (B : Type 0) where
  forget-IsProper : (id : String) → IsProper (forget {B = B} id)
  forget-IsProper id = (
    tt,
    elim [
      | ok _ ↦ (
        tt,
        elim [
          | ok _ ↦ (tt, elim [ ok _ ↦ (tt, elim [ ok _ ↦ tt | err _ ↦ tt ]) | err _ ↦ tt ])
          | err _ ↦ tt
        ],
      )
      | err _ ↦ tt
    ],
  )

  -- What happens behind the removal from one of the queues.
  gone_or-IsProper :
      (id status : String) (others : Prog B (Option String))
      → IsProper others
      → (b : Bool) → IsProper (if◌then◌else◌ b (do forget {B = B} id; pure (some status)) others)
  gone_or-IsProper id status others h true =
      Sends-bind Proper (forget {B = B} id) _ (forget-IsProper id) (λ _. tt)
  gone_or-IsProper id status others h false = h

  cancel_from-IsProper :
      (id queue : String) (l : List (Family × String × Bool))
      → Suits l
      → IsProper (cancel_from {B = B} id queue l)
  cancel_from-IsProper id queue [] h = tt
  cancel_from-IsProper id queue ((f, status, true) ∷ l) (p, h) =
      let ih = cancel_from-IsProper id queue l h in
      (
        tt,
        elim [
          | ok true ↦ (p, elim [ ok n ↦ gone_or-IsProper id status _ ih (ltb 0 n) | err _ ↦ tt ])
          | ok false ↦ ih
          | err _ ↦ tt
        ],
      )
  cancel_from-IsProper id queue ((f, status, false) ∷ l) (p, h) =
      let ih = cancel_from-IsProper id queue l h in
      (
        tt,
        elim [
          | ok true ↦ (p, elim [ ok n ↦ gone_or-IsProper id status _ ih (ltb 0 n) | err _ ↦ tt ])
          | ok false ↦ ih
          | err _ ↦ tt
        ],
      )

  pub cancel_task-IsProper : (id queue : String) → IsProper (cancel_task {B = B} id queue)
  unfolding cancel_task
  cancel_task-IsProper id queue =
      cancel_from-IsProper id queue queue_checks (refl, (refl, (refl, (refl, (refl, (refl, tt))))))

  release-IsProper : (queue : String) (r u : Option String) → IsProper (release {B = B} queue r u)
  release-IsProper queue (some s) (some u) = (refl, elim [ ok _ ↦ tt | err _ ↦ tt ])
  release-IsProper queue (some s) none = tt
  release-IsProper queue none u = tt

  pub cancel_task_with_unique-IsProper :
      (id queue : String) (u : Option String)
      → IsProper (cancel_task_with_unique {B = B} id queue u)
  unfolding cancel_task_with_unique
  cancel_task_with_unique-IsProper id queue u =
      Sends-bind Proper (cancel_task {B = B} id queue) _ (cancel_task-IsProper id queue)
        (λ r. release-IsProper queue r u)

module _ {B : Type 0} (codec : Codec B) (cfg : RediqConfig) where
  unpack_found-IsProper : (b : Option B) → IsProper (unpack_found codec b)
  unpack_found-IsProper none = tt
  unpack_found-IsProper (some b) = Sends-bind Proper (done (codec.from_slice b)) _ tt (λ t. tt)

  read_found-IsProper : (v : Option (Value B)) → IsProper (read_found codec v)
  read_found-IsProper none = tt
  read_found-IsProper (some v) = unpack_found-IsProper (codec.as_bytes v)

  requeue-IsProper : (id queue : String) (t : Option Task) → IsProper (requeue codec cfg id queue t)
  requeue-IsProper id queue none = tt
  requeue-IsProper id queue (some t) = Sends-bind Proper (done (codec.to_vec (reset t))) _ tt (λ b.
      (
        refl,
        elim [
          | ok _ ↦ (
            tt,
            elim [
              | ok _ ↦ (refl, elim [ ok _ ↦ (refl, elim [ ok _ ↦ tt | err _ ↦ tt ]) | err _ ↦ tt ])
              | err _ ↦ tt
            ],
          )
          | err _ ↦ tt
        ],
      ))

  retry_found-IsProper :
      (id queue : String) (b : Bool) → IsProper (retry_found codec cfg id queue b)
  retry_found-IsProper id queue false = tt
  retry_found-IsProper id queue true = (
    refl,
    elim [
      | ok v ↦
          Sends-bind Proper (read_found codec v) _ (read_found-IsProper v)
            (requeue-IsProper id queue)
      | err _ ↦ tt
    ],
  )

  pub retry_task-IsProper : (id queue : String) → IsProper (retry_task codec cfg id queue)
  unfolding retry_task
  retry_task-IsProper id queue =
      (refl, elim [ ok l ↦ retry_found-IsProper id queue (contains l id) | err _ ↦ tt ])

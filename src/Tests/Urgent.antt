-- ===== src/Tests/Urgent.antt =====
-- The theorem on tasks with a priority at concrete data.
use rediq.Prelude.{pos, some, none, ◌≡◌, refl, if◌then◌else◌, [], ◌∷◌}
use rediq.Errors.{ok}
use rediq.Keys.{Family, key}
use rediq.Redis.{◌>>◌, bytes, text}
use rediq.Redis.Keyspace.{Keyspace, zset, put, precedes}
use rediq.Redis.Server.{outcome, memory, empty}
use rediq.Config.{default_config}
use rediq.Client.{enqueue_priority}
use rediq.Worker.{dequeue_task_any, activated}
use rediq.System.Priorities
use rediq.Tests.Samples.{Blob, packed, codec, codec-IsFaithful, urgent_mail, letter, details_of}

-- A letter of the priority 50 waits.
abbrev with_rank : Keyspace Blob
with_rank =
    put (put empty (key Family.priority_queue "mail") (some (zset (("b2", pos 50) ∷ []), none)))
      (key Family.task "b2") (details_of letter)

enqueue_priority-dequeue_task_any_example :
    (outcome memory
      (do
        enqueue_priority codec default_config urgent_mail
        dequeue_task_any codec default_config 2 "mail" 101)
      with_rank).0
    ≡ ok (
        some (
          activated codec
            (if precedes ("a1", pos 7) ("b2", pos 50) then urgent_mail else letter)
            101))
enqueue_priority-dequeue_task_any_example =
    Priorities.enqueue_priority-dequeue_task_any codec codec-IsFaithful default_config memory
      with_rank urgent_mail 100 (packed urgent_mail) 86399
      (record { fresh = refl; packs = refl; lives = refl }) 2 101 "b2" (pos 50) []
      (("data", bytes (packed letter)) ∷ ("queue", text "mail") ∷ []) (packed letter) letter [] []
      refl (record { held = refl; has_data = refl; read = refl; unpacks = refl }) refl refl refl
      refl refl refl refl refl

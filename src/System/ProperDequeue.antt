-- ===== src/System/ProperDequeue.antt =====
-- Dequeueing sends only proper commands (rediq/src/server/worker.rs).
use rediq.Prelude.{ℕ, String, str_eq, Option, none, some, Bool, true, false, refl, if◌then◌else◌}
use rediq.Errors.{Result, ok, err, queue_paused}
use rediq.Keys.{Family, key}
use rediq.Redis.{done, Value, pure, attempt}
use rediq.Redis.Client.{pdequeue_lua}
use rediq.Redis.Kinds.{Proper}
use rediq.Redis.Sends.{Sends-bind, Sends-attempt}
use rediq.Config.{RediqConfig}
use rediq.Task.{Task}
use rediq.Codec.{Codec}
use rediq.Worker.{
  load_bytes, load_found, load_task, loaded, dequeue_popped, dequeue_task, dequeue_task_priority,
  fall_back, dequeue_task_any,
}
use rediq.System.Proper.{IsProper}
use rediq.System.ProperScripts.{pdequeue_lua-IsProper}

module _ {B : Type 0} (codec : Codec B) where
  load_bytes-IsProper :
      (id : String) (now : ℕ) (b : Option B) → IsProper (load_bytes codec id now b)
  load_bytes-IsProper id now none = tt
  load_bytes-IsProper id now (some b) =
      Sends-bind Proper (done (codec.from_slice b)) _ tt
        (λ t. (refl, elim [ ok _ ↦ tt | err _ ↦ tt ]))

  load_found-IsProper :
      (id : String) (now : ℕ) (v : Option (Value B)) → IsProper (load_found codec id now v)
  load_found-IsProper id now none = tt
  load_found-IsProper id now (some v) = load_bytes-IsProper id now (codec.as_bytes v)

  loaded-IsProper : (id : String) (now : ℕ) → IsProper (loaded codec id now)
  unfolding load_task
  loaded-IsProper id now =
      Sends-bind Proper (load_task codec id now) _
        (refl, elim [ ok v ↦ load_found-IsProper id now v | err _ ↦ tt ]) (λ t. tt)

  dequeue_popped-IsProper :
      (q : String) (now : ℕ) (o : Option String) → IsProper (dequeue_popped codec q now o)
  dequeue_popped-IsProper q now none = tt
  dequeue_popped-IsProper q now (some id) =
      (refl, elim [ ok _ ↦ loaded-IsProper id now | err _ ↦ tt ])

  pub dequeue_task-IsProper :
      (timeout : ℕ) (q : String) (now : ℕ) → IsProper (dequeue_task codec timeout q now)
  unfolding dequeue_task
  dequeue_task-IsProper timeout q now = (
    tt,
    elim [
      | ok true ↦ tt
      | ok false ↦ (refl, elim [ ok o ↦ dequeue_popped-IsProper q now o | err _ ↦ tt ])
      | err _ ↦ tt
    ],
  )

  named-IsProper :
      (id : String) (now : ℕ) (b : Bool)
      → IsProper (if◌then◌else◌ b (pure none) (loaded codec id now))
  named-IsProper id now true = tt
  named-IsProper id now false = loaded-IsProper id now

  dequeue_task_priority-IsProper :
      (cfg : RediqConfig) (q : String) (now : ℕ) → IsProper (dequeue_task_priority codec cfg q now)
  unfolding dequeue_task_priority
  dequeue_task_priority-IsProper cfg q now =
      Sends-bind Proper
        (pdequeue_lua {B = B} (key Family.priority_queue q) (key Family.active q)
          (key Family.pause q) now cfg.task_ttl)
        _ (pdequeue_lua-IsProper B q now cfg.task_ttl) (λ id. named-IsProper id now (str_eq id ""))

  fall_back-IsProper :
      (timeout : ℕ) (q : String) (now : ℕ) (r : Result (Option Task))
      → IsProper (fall_back codec timeout q now r)
  fall_back-IsProper timeout q now (ok (some t)) = tt
  fall_back-IsProper timeout q now (ok none) = dequeue_task-IsProper timeout q now
  fall_back-IsProper timeout q now (err (queue_paused _)) = tt
  fall_back-IsProper timeout q now (err _) = dequeue_task-IsProper timeout q now

  pub dequeue_task_any-IsProper :
      (cfg : RediqConfig) (timeout : ℕ) (q : String) (now : ℕ)
      → IsProper (dequeue_task_any codec cfg timeout q now)
  unfolding dequeue_task_any
  dequeue_task_any-IsProper cfg timeout q now =
      Sends-bind Proper (attempt (dequeue_task_priority codec cfg q now)) _
        (Sends-attempt Proper (dequeue_task_priority codec cfg q now)
          (dequeue_task_priority-IsProper cfg q now))
        (fall_back-IsProper timeout q now)

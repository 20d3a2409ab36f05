-- ===== src/System/ProperWorker.antt =====
-- Processing and acknowledging send only proper commands (rediq/src/server/worker.rs).
use rediq.Prelude.{ℕ, String, Option, none, some, Bool, true, false, refl}
use rediq.Errors.{Error, Result, ok, err, display}
use rediq.Keys.{Family, key}
use rediq.Redis.{done, ◌>>◌, Value, pure, attempt}
use rediq.Redis.Client.{hincrby}
use rediq.Redis.Kinds.{Proper}
use rediq.Redis.Sends.{Sends-bind, Sends-attempt}
use rediq.Config.{RediqConfig}
use rediq.Task.{Task, TaskStatus, can_retry, retry_delay}
use rediq.Codec.{Codec}
use rediq.Dependencies.{check_dependents, fail_dependents}
use rediq.Progress.{ProgressContext, report, new_progress, default_progress}
use rediq.Worker.{
  count_in, count_bytes, counted, increment_processed, settle_processed, acknowledged, ack_task,
  retry_at, schedule_retry, Handled, process_result, failed_once, retry_or_bury, settle,
  process_task,
}
use rediq.System.Proper.{IsProper}
use rediq.System.ProperDependencies.{check_dependents-IsProper, fail_dependents-IsProper}
use rediq.System.ProperScripts.{report-IsProper}

module _ {B : Type 0} (codec : Codec B) (worker_id : String) where
  count_bytes-IsProper : (now : ℕ) (b : Option B) → IsProper (count_bytes codec worker_id now b)
  count_bytes-IsProper now none = tt
  count_bytes-IsProper now (some b) =
      Sends-bind Proper (done (codec.worker_from_slice b)) _ tt (λ m.
        Sends-bind Proper (done (codec.worker_to_vec (counted codec worker_id m now))) _ tt
          (λ p. (refl, λ r. tt)))

  count_in-IsProper : (now : ℕ) (v : Option (Value B)) → IsProper (count_in codec worker_id now v)
  count_in-IsProper now none = tt
  count_in-IsProper now (some v) = count_bytes-IsProper now (codec.as_bytes v)

  increment_processed-IsProper : (now : ℕ) → IsProper (increment_processed codec worker_id now)
  unfolding increment_processed
  increment_processed-IsProper now = (refl, elim [ ok v ↦ count_in-IsProper now v | err _ ↦ tt ])

  counted-IsProper :
      (t : Task)
      → IsProper (do
        attempt (hincrby {B = B} (key Family.stats t.queue) "processed" 1)
        attempt (check_dependents codec t.id)
        pure tt)
  counted-IsProper t = (
    refl,
    λ r.
        Sends-bind Proper (attempt (check_dependents codec t.id)) _
          (Sends-attempt Proper (check_dependents codec t.id)
            (check_dependents-IsProper codec t.id))
          (λ _. tt),
  )

  settle_processed-IsProper :
      (t : Task) (now : ℕ) (s : TaskStatus) → IsProper (settle_processed codec worker_id t now s)
  settle_processed-IsProper t now TaskStatus.processed =
      Sends-bind Proper (increment_processed codec worker_id now) _
        (increment_processed-IsProper now) (λ _. counted-IsProper t)
  settle_processed-IsProper t now _ = tt

  ack_task-IsProper :
      (cfg : RediqConfig) (t : Task) (s : TaskStatus) (e : Option String) (now : ℕ)
      → IsProper (ack_task codec worker_id cfg t s e now)
  unfolding ack_task
  ack_task-IsProper cfg t s e now = (
    refl,
    elim [
      | ok _ ↦
          Sends-bind Proper (done (codec.to_vec (acknowledged codec worker_id t s e))) _ tt (λ b. (
            refl,
            elim [
              | ok _ ↦ (tt, elim [ ok _ ↦ settle_processed-IsProper t now s | err _ ↦ tt ])
              | err _ ↦ tt
            ],
          ))
      | err _ ↦ tt
    ],
  )

  retry_at-IsProper :
      (t : Task) (now : ℕ) (d : Option ℕ) → IsProper (retry_at codec worker_id t now d)
  retry_at-IsProper t now none = tt
  retry_at-IsProper t now (some d) = (refl, λ r. tt)

module _ {B : Type 0} (codec : Codec B) (cfg : RediqConfig) (worker_id : String) where
  retry_or_bury-IsProper :
      (t : Task) (e : Error) (now : ℕ) (b : Bool)
      → IsProper (retry_or_bury codec cfg worker_id t e now b)
  unfolding schedule_retry
  retry_or_bury-IsProper t e now true =
      Sends-bind Proper (ack_task codec worker_id cfg t TaskStatus.retry (some (display e)) now) _
        (ack_task-IsProper codec worker_id cfg t TaskStatus.retry (some (display e)) now)
        (λ _. retry_at-IsProper codec worker_id t now (retry_delay t))
  retry_or_bury-IsProper t e now false =
      Sends-bind Proper (ack_task codec worker_id cfg t TaskStatus.dead (some (display e)) now) _
        (ack_task-IsProper codec worker_id cfg t TaskStatus.dead (some (display e)) now)
        (λ _.
          Sends-bind Proper (attempt (fail_dependents codec t.id t.queue)) _
            (Sends-attempt Proper (fail_dependents codec t.id t.queue)
              (fail_dependents-IsProper codec t.id t.queue))
            (λ _. tt))

  settle-IsProper :
      (ctx : ProgressContext) (t : Task) (instant now : ℕ) (r : Result (Unit {0}))
      → IsProper (settle codec cfg worker_id ctx t instant now r)
  settle-IsProper ctx t instant now (ok r) =
      Sends-bind Proper (attempt (report {B = B} ctx 100 instant now)) _
        (Sends-attempt Proper (report {B = B} ctx 100 instant now)
          (report-IsProper B ctx 100 instant now))
        (λ _.
          Sends-bind Proper (ack_task codec worker_id cfg t TaskStatus.processed none now) _
            (ack_task-IsProper codec worker_id cfg t TaskStatus.processed none now) (λ _. tt))
  settle-IsProper ctx t instant now (err e) =
      Sends-bind Proper
        (retry_or_bury codec cfg worker_id (failed_once t e) e now (can_retry (failed_once t e))) _
        (retry_or_bury-IsProper (failed_once t e) e now (can_retry (failed_once t e))) (λ _. tt)

  pub process_task-IsProper :
      (t : Task) (before : Result (Unit {0})) (handled : Handled) (instant now : ℕ)
      → IsProper (process_task codec cfg worker_id t before handled instant now)
  unfolding process_task
  process_task-IsProper t before handled instant now =
      let ctx = new_progress t.id default_progress instant in
      Sends-bind Proper (attempt (report {B = B} ctx 0 instant now)) _
        (Sends-attempt Proper (report {B = B} ctx 0 instant now)
          (report-IsProper B ctx 0 instant now))
        (λ _.
          Sends-bind Proper (done before) _ tt
            (λ _. settle-IsProper ctx t instant now (process_result handled)))

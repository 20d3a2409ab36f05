-- ===== src/System/ProperScripts.antt =====
-- Progress reports and the scripts send only proper commands (rediq/src/progress/mod.rs,
-- rediq/src/storage/redis/mod.rs).
use rediq.Prelude.{
  ℕ, ◌-◌, ltb, ◌&&◌, pos, String, List, [], ◌∷◌, Option, none, true, false, refl, ◌≡◌, Bool-cases,
  inl, inr,
}
use rediq.Errors.{ok, err}
use rediq.Keys.{Family, key}
use rediq.Redis.{attempt}
use rediq.Redis.Client.{
  pdequeue_lua, pdequeue_script, take_first, eval_script, received, ScriptReply, integer, status,
  error, move_expired_tasks_lua, move_expired_script, move_each,
}
use rediq.Redis.Kinds.{Proper, Kind, kind}
use rediq.Redis.Sends.{Sends-bind, Sends-attempt}
use rediq.Progress.{ProgressContext, report, report_with_message, write_progress}
use rediq.Scheduler.{move_due, check_retry_tasks, check_delayed_tasks}
use rediq.System.Proper.{IsProper}

module _ (B : Type 0) where
  write_progress-IsProper :
      (ctx : ProgressContext) (n : ℕ) (m : Option String) (instant now : ℕ)
      → IsProper (write_progress {B = B} ctx n m instant now)
  write_progress-IsProper ctx n m instant now =
      (refl, elim [ ok _ ↦ (tt, elim [ ok _ ↦ tt | err _ ↦ tt ]) | err _ ↦ tt ])

  pub report-IsProper :
      (ctx : ProgressContext) (n instant now : ℕ) → IsProper (report {B = B} ctx n instant now)
  unfolding report report_with_message
  report-IsProper ctx n instant now = elim (Bool-cases (ltb 100 n)) [
    | inl y ↦ rw y tt
    | inr f ↦
        rw f
          (elim (Bool-cases (ltb (instant - ctx.last_update) ctx.config.throttle_ms && ltb n 100)) [
            | inl y ↦ rw y tt
            | inr g ↦ rw g (write_progress-IsProper ctx n none instant now)
          ])
  ]

  received-IsProper : (r : ScriptReply) → IsProper (received {B = B} r)
  received-IsProper (integer n) = tt
  received-IsProper (status s) = tt
  received-IsProper (error s) = tt

  take_first-IsProper :
      (q : String) (now ttl : ℕ) (l : List String)
      → IsProper (take_first {B = B} (key Family.priority_queue q) (key Family.active q) now ttl l)
  take_first-IsProper q now ttl [] = tt
  take_first-IsProper q now ttl (id ∷ _) = (
    refl,
    elim [
      | ok _ ↦ (
        refl,
        elim [
          | ok _ ↦ (
            refl,
            elim [
              | ok _ ↦ (refl, elim [ ok _ ↦ (tt, elim [ ok _ ↦ tt | err _ ↦ tt ]) | err _ ↦ tt ])
              | err _ ↦ tt
            ],
          )
          | err _ ↦ tt
        ],
      )
      | err _ ↦ tt
    ],
  )

  pdequeue_script-IsProper :
      (q : String) (now ttl : ℕ)
      → IsProper (
          pdequeue_script {B = B}
            (key Family.priority_queue q)
            (key Family.active q)
            (key Family.pause q)
            now
            ttl)
  pdequeue_script-IsProper q now ttl = (
    tt,
    elim [
      | ok true ↦ tt
      | ok false ↦ (refl, elim [ ok l ↦ take_first-IsProper q now ttl l | err _ ↦ tt ])
      | err _ ↦ tt
    ],
  )

  pub pdequeue_lua-IsProper :
      (q : String) (now ttl : ℕ)
      → IsProper (
          pdequeue_lua {B = B}
            (key Family.priority_queue q)
            (key Family.active q)
            (key Family.pause q)
            now
            ttl)
  pdequeue_lua-IsProper q now ttl =
      let script =
        pdequeue_script {B = B} (key Family.priority_queue q) (key Family.active q)
          (key Family.pause q) now ttl in
      Sends-bind Proper (eval_script script) _
        (Sends-bind Proper script _ (pdequeue_script-IsProper q now ttl) received-IsProper)
        (λ r. tt)

  move_each-IsProper :
      (source dest : Family) (q : String) (l : List String)
      → kind source ≡ Kind.zsets
      → kind dest ≡ Kind.lists
      → IsProper (move_each {B = B} (key source q) (key dest q) l)
  move_each-IsProper source dest q [] z w = tt
  move_each-IsProper source dest q (id ∷ l) z w = (
    z,
    elim [
      | ok _ ↦ (w, elim [ ok _ ↦ move_each-IsProper source dest q l z w | err _ ↦ tt ])
      | err _ ↦ tt
    ],
  )

  move_expired-IsProper :
      (source : Family) (q : String) (now n : ℕ)
      → kind source ≡ Kind.zsets
      → IsProper (move_expired_tasks_lua {B = B} (key source q) (key Family.queue q) (pos now) n)
  move_expired-IsProper source q now n z =
      let script = move_expired_script {B = B} (key source q) (key Family.queue q) (pos now) n in
      Sends-bind Proper (eval_script script) _
        (Sends-bind Proper script _
          (
            z,
            elim [
              | ok l ↦
                  Sends-bind Proper (move_each {B = B} (key source q) (key Family.queue q) l) _
                    (move_each-IsProper source Family.queue q l z refl) (λ _. tt)
              | err _ ↦ tt
            ],
          )
          received-IsProper)
        (λ r. tt)

  move_due-IsProper :
      (source : Family) (now : ℕ) (l : List String)
      → kind source ≡ Kind.zsets
      → IsProper (move_due {B = B} source now l)
  move_due-IsProper source now [] z = tt
  move_due-IsProper source now (q ∷ l) z =
      let moves =
        move_expired_tasks_lua {B = B} (key source q) (key Family.queue q) (pos now) 100 in
      Sends-bind Proper (attempt moves) _
        (Sends-attempt Proper moves (move_expired-IsProper source q now 100 z))
        (λ _. move_due-IsProper source now l z)

  pub check_retry_tasks-IsProper :
      (l : List String) (now : ℕ) → IsProper (check_retry_tasks {B = B} l now)
  unfolding check_retry_tasks
  check_retry_tasks-IsProper l now = move_due-IsProper Family.retry now l refl

  pub check_delayed_tasks-IsProper :
      (l : List String) (now : ℕ) → IsProper (check_delayed_tasks {B = B} l now)
  unfolding check_delayed_tasks
  check_delayed_tasks-IsProper l now = move_due-IsProper Family.delayed now l refl

-- ===== src/Worker/Attempts.antt =====
-- How often a task is tried (`process_task` of rediq/src/server/worker.rs, `Task::can_retry` of
-- rediq/src/task/mod.rs).
use rediq.Prelude.{ℕ, zero, suc, ◌<◌, ◌^◌, ◌%◌, ◌≡◌, ◌↔◌, refl, true, arith}
use rediq.Errors.{Error}
use rediq.Task.{Task, can_retry}
use rediq.Worker.{failed_once}

-- The task after a number of failures.
abbrev pub failures : ℕ → Task → Error → Task
failures zero t e = t
failures (suc n) t e = failed_once (failures n t e) e

small_mod : (n : ℕ) → n < 2 ^ 32 → n % 2 ^ 32 ≡ n
small_mod n h = omega arith

failures-retry_cnt :
    (n : ℕ) (t : Task) (e : Error) → t.retry_cnt ≡ 0 → n < 2 ^ 32 → (failures n t e).retry_cnt ≡ n
failures-retry_cnt zero t e h b = h
failures-retry_cnt (suc n) t e h b = rw (failures-retry_cnt n t e h (omega arith)) (omega arith)

failures-options :
    (n : ℕ) (t : Task) (e : Error) → (failures n t e).options.max_retry ≡ t.options.max_retry
failures-options zero t e = refl
failures-options (suc n) t e = failures-options n t e

-- A task with no failure counted that then fails n times, n within 32 bits, can be tried again
-- exactly if n is below `max_retry`: `max_retry` counts all attempts, the first one among them.
pub can_retry-failures :
    (n : ℕ) (t : Task) (e : Error)
    → t.retry_cnt ≡ 0
    → n < 2 ^ 32
    → (can_retry (failures n t e) ≡ true) ↔ (n < t.options.max_retry)
unfolding can_retry
can_retry-failures n t e h b =
    let c = failures-retry_cnt n t e h b in
    let o = failures-options n t e in (λ r. ground (arith, c, o), λ r. ground (arith, c, o))

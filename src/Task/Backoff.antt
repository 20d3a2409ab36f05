-- ===== src/Task/Backoff.antt =====
-- The delays between the attempts of a task (`Task::retry_delay` of rediq/src/task/mod.rs).
use rediq.Prelude.{ℕ, zero, suc, ◌*◌, ◌^◌, ◌≤◌, min, ◌≡◌, ◌↔◌, refl, none, some, arith}
use rediq.Task.{Task, retry_delay, from_secs, saturating_add_u32}

-- The exponent of the delay after `n` counted failures.
abbrev pub exponent : ℕ → ℕ
exponent n = min (saturating_add_u32 n 1) 6

power_step : (n : ℕ) → 2 ^ exponent (suc n) ≡ min (2 * 2 ^ exponent n) 64
power_step zero = refl
power_step (suc zero) = refl
power_step (suc (suc zero)) = refl
power_step (suc (suc (suc zero))) = refl
power_step (suc (suc (suc (suc zero)))) = refl
power_step (suc (suc (suc (suc (suc n))))) =
    let e : exponent (suc (suc (suc (suc (suc n))))) ≡ 6 = omega arith in
    let f : exponent (suc (suc (suc (suc (suc (suc n)))))) ≡ 6 = omega arith in rw (e, f) refl

power_bounds : (n : ℕ) → (2 ≤ 2 ^ exponent n) × (2 ^ exponent n ≤ 64)
power_bounds zero = (omega arith, omega arith)
power_bounds (suc n) = let ih = power_bounds n in rw power_step (omega arith)

-- There is no retry delay exactly when the counted failures have reached the maximum.
pub retry_delay-eq-none_iff :
    (t : Task) → (retry_delay t ≡ none) ↔ (t.options.max_retry ≤ t.retry_cnt)
unfolding retry_delay
retry_delay-eq-none_iff t = (λ h. ground arith, λ h. ground arith)

-- A retry delay is at least 2 and at most 64 seconds.
pub retry_delay_bounds :
    (t : Task) (d : ℕ) → retry_delay t ≡ some d → (from_secs 2 ≤ d) × (d ≤ from_secs 64)
unfolding retry_delay
retry_delay_bounds t d h = ground (arith, power_bounds t.retry_cnt)

-- Of two tasks that both have a retry delay, the one with one more counted failure waits twice as
-- long, up to 64 seconds.
pub retry_delay_doubles :
    (t u : Task) (d e : ℕ)
    → u.retry_cnt ≡ suc t.retry_cnt
    → retry_delay t ≡ some d
    → retry_delay u ≡ some e
    → e ≡ min (2 * d) (from_secs 64)
unfolding retry_delay
retry_delay_doubles t u d e c h k = ground (arith, power_step t.retry_cnt)

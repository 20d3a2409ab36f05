-- ===== src/Errors/Delays.antt =====
-- How long a retry strategy waits (rediq/src/error.rs).
use rediq.Prelude.{ℕ, ◌+◌, ◌*◌, ◌/◌, ◌%◌, ◌^◌, ◌≤◌, ◌<◌, ◌≡◌, leb, false, refl, some, arith}
use rediq.Errors.Retrying.{linear, from_millis, delay_for}

module _ {F : Type 0} (scaled : ℕ → F → ℕ → ℕ) (n : ℕ) where
  -- The wait of a linear strategy behind n retries, n below their maximal number, is n + 1 times
  -- the step while that fits in 64 bits of milliseconds.
  pub linear_grows :
      (most_retries step_millis : ℕ)
      → n < most_retries
      → step_millis * (n + 1) < 2 ^ 64
      → delay_for scaled (linear most_retries (from_millis step_millis)) n
        ≡ some (from_millis (step_millis * (n + 1)))
  unfolding delay_for
  linear_grows most_retries step_millis h b =
      let whole : step_millis * 1_000_000 / 1_000_000 ≡ step_millis = omega arith in
      let more : step_millis ≤ step_millis * (n + 1) = grind arith in
      let small : step_millis % 2 ^ 64 ≡ step_millis = omega arith in
      let fits : step_millis * (n + 1) % 2 ^ 64 ≡ step_millis * (n + 1) = omega arith in
      let on : leb most_retries n ≡ false = ground arith in
      rw on (rw whole (rw small (rw fits refl)))

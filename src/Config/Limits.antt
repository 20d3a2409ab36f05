-- ===== src/Config/Limits.antt =====
-- The priority limits of config.rs: validation and clamping agree.
use rediq.Prelude.{ℤ, ◌≤ℤ◌, ◌≡◌, ◌↔◌, arith}
use rediq.Errors.{ok}
use rediq.Config.{RediqConfig, validate_priority, clamp_priority}

-- Where the range of priorities is not empty, a clamped priority passes the validation, and a
-- priority passes it exactly when clamping leaves it as it is.
pub validate-clamp :
    (c : RediqConfig) (p : ℤ)
    → c.priority_range.0 ≤ℤ c.priority_range.1
    → (validate_priority c (clamp_priority c p) ≡ ok tt)
      × ((validate_priority c p ≡ ok tt) ↔ (clamp_priority c p ≡ p))
unfolding validate_priority clamp_priority
validate-clamp c p h = (ground arith, (λ v. ground arith, λ v. ground arith))

-- ===== src/Progress/Reporting.antt =====
-- The bounds and the throttling of progress reports (rediq/src/progress/mod.rs).
use rediq.Prelude.{ap, sym, ℕ, ◌-◌, ◌≤◌, ◌<◌, String, ◌≡◌, ◌∙◌, Option, arith}
use rediq.Errors.{Result, ok, err, validation}
use rediq.Redis.Keyspace.{Keyspace, effect}
use rediq.Redis.Server.{Server, outcome, outcome-eq-replay, replay}
use rediq.Progress.{ProgressContext, report_with_message}

module _ {B : Type 0} (s : Server B) (db : s.Db) (ctx : ProgressContext) (current : ℕ)
    (message : Option String) (instant now : ℕ) where
  -- A report of more than 100 is refused, and nothing is written.
  pub report_refused :
      100 < current
      → outcome s (report_with_message ctx current message instant now) db
        ≡ (err (validation "Progress must be 0-100, got {}"), s.view db)
  unfolding replay report_with_message
  report_refused h =
      outcome-eq-replay s (report_with_message ctx current message instant now) db ∙ ground arith

  -- A report below 100 before the end of the throttle interval succeeds and changes neither the
  -- context nor the data.
  pub report_throttled :
      current < 100
      → instant - ctx.last_update < ctx.config.throttle_ms
      → outcome s (report_with_message ctx current message instant now) db ≡ (ok ctx, s.view db)
  unfolding replay report_with_message
  report_throttled h g =
      outcome-eq-replay s (report_with_message ctx current message instant now) db ∙ ground arith

  -- If the progress of a context is at most 100, it is so after every report that succeeds.
  pub report_bounded :
      (after : ProgressContext)
      → ctx.current_value ≤ 100
      → (outcome s (report_with_message ctx current message instant now) db).0 ≡ ok after
      → after.current_value ≤ 100
  unfolding replay report_with_message effect
  report_bounded after h e =
      let p = report_with_message {B = B} ctx current message instant now in
      let r : (replay s.order p (s.view db)).0 ≡ ok after =
        ap (λ (o : Result ProgressContext × Keyspace B). o.0) (sym (outcome-eq-replay s p db))
        ∙ e in
      ground (arith, h, r)

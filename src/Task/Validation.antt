-- ===== src/Task/Validation.antt =====
-- What `Task::validate` and `TaskBuilder::build` accept (rediq/src/task/mod.rs, task/builder.rs).
use rediq.Prelude.{
  ℕ, ◌≤◌, ◌<◌, ◌≤ℤ◌, String, eq_iff, ◌≡◌, ◌≢◌, ◌↔◌, refl, false, Option, none, some, length, arith,
}
use rediq.Errors.{Result, ok, err}
use rediq.Config.{RediqConfig}
use rediq.Task.{Task, validate, has_space, as_secs, max_delay_secs, delay_too_long, cron_malformed}
use rediq.Task.Builder
use rediq.Task.Builder.{TaskBuilder, build, built}

-- At most a year.
abbrev pub DelayFits : Option ℕ → Type 0
DelayFits none = Unit
DelayFits (some d) = as_secs d ≤ max_delay_secs

-- A crontab line has blanks; the one word allowed is `@always`.
abbrev pub CronFits : Option String → Type 0
CronFits none = Unit
CronFits (some c) = has_space c ≡ false → c ≡ "@always"

pub record IsValid (cfg : RediqConfig) (t : Task) : Type 0 where
  pub typed : t.task_type ≢ ""
  pub queued : t.queue ≢ ""
  pub loaded : 0 < length t.payload
  pub small : length t.payload ≤ cfg.max_payload_size
  pub ranked :
      (cfg.priority_range.0 ≤ℤ t.options.priority) × (t.options.priority ≤ℤ cfg.priority_range.1)
  pub timed : 0 < t.options.timeout
  pub delayed : DelayFits t.options.delay
  pub scheduled : CronFits t.options.cron

delay_fits : (d : Option ℕ) → (delay_too_long d ≡ false) ↔ DelayFits d
delay_fits none = (λ h. tt, λ h. refl)
delay_fits (some d) = (λ h. ground arith, λ h. ground arith)

cron_fits : (c : Option String) → (cron_malformed c ≡ false) ↔ CronFits c
cron_fits none = (λ h. tt, λ h. refl)
cron_fits (some c) =
    (λ h e. ground (arith, eq_iff c "@always"), λ h. ground (arith, eq_iff c "@always", h))

validate_sound : (cfg : RediqConfig) (t : Task) → validate cfg t ≡ ok tt → IsValid cfg t
unfolding validate
validate_sound cfg t h = record {
  typed = λ e. ground (arith, eq_iff t.task_type "");
  queued = λ e. ground (arith, eq_iff t.queue "");
  loaded = ground arith;
  small = ground arith;
  ranked = ground arith;
  timed = ground arith;
  delayed = (delay_fits t.options.delay).0 (ground arith);
  scheduled = (cron_fits t.options.cron).0 (ground arith);
}

validate_complete : (cfg : RediqConfig) (t : Task) → IsValid cfg t → validate cfg t ≡ ok tt
unfolding validate
validate_complete cfg t v =
    let d = (delay_fits t.options.delay).1 v.delayed in
    let c = (cron_fits t.options.cron).1 v.scheduled in
    ground (arith, eq_iff t.task_type "", eq_iff t.queue "", v.typed, v.queued)

-- `validate` accepts a task exactly when its type, queue and payload are not empty, the payload
-- and the priority are within the configured limits, the timeout is not zero, the delay is a year
-- at most, and the cron line, if any, has a blank or is `@always`.
pub validate-eq-ok_iff : (cfg : RediqConfig) (t : Task) → (validate cfg t ≡ ok tt) ↔ IsValid cfg t
validate-eq-ok_iff cfg t = (validate_sound cfg t, validate_complete cfg t)

checked-eq-ok :
    (u t : Task) (r : Result (Unit {0})) → Builder.checked u r ≡ ok t → (t ≡ u) × (r ≡ ok tt)
checked-eq-ok u t (ok tt) h = (ground arith, refl)
checked-eq-ok u t (err e) h = cc

build-eq-checked :
    (cfg : RediqConfig) (b : TaskBuilder) (id : String) (now : ℕ) (t : Task)
    → build cfg b id now ≡ ok t
    → Builder.checked (built b id now) (validate cfg (built b id now)) ≡ ok t
unfolding build
build-eq-checked cfg b id now t h = ground arith

build_valid :
    (cfg : RediqConfig) (b : TaskBuilder) (id : String) (now : ℕ)
    → IsValid cfg (built b id now)
    → build cfg b id now ≡ ok (built b id now)
unfolding build
build_valid cfg b id now v =
    ground (arith, validate_complete cfg (built b id now) v, v.typed, eq_iff b.task_type "")

-- `build` gives a task exactly when it is the one made of the builder's parts, the identifier and
-- the time, and that task is valid.
pub build-eq-ok_iff :
    (cfg : RediqConfig) (b : TaskBuilder) (id : String) (now : ℕ) (t : Task)
    → (build cfg b id now ≡ ok t) ↔ ((t ≡ built b id now) × IsValid cfg t)
build-eq-ok_iff cfg b id now t = (
  λ h.
      let (e, v) = checked-eq-ok (built b id now) t _ (build-eq-checked cfg b id now t h) in
      (e, rw e (validate_sound cfg (built b id now) v)),
  λ (e, v). rw e (build_valid cfg b id now (rw e at v)),
)

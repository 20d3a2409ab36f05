-- ===== src/Tests/Tasks.antt =====
-- The theorems on tasks, keys and the configuration at concrete data.
use rediq.Prelude.{◌≡◌, ◌↔◌, some, [], ◌∷◌}
use rediq.Errors.{ok}
use rediq.Keys.{Family, key, render}
use rediq.Keys.Parsing
use rediq.Keys.Parsing.{parse}
use rediq.Config.{default_config}
use rediq.Task.{Task, validate}
use rediq.Task.Builder.{TaskBuilder, new, raw_payload}
use rediq.Task.Validation
use rediq.Task.Validation.{IsValid}
use rediq.Tests.Samples.{mail}

validate-eq-ok_iff_example : (validate default_config mail ≡ ok tt) ↔ IsValid default_config mail
validate-eq-ok_iff_example = Validation.validate-eq-ok_iff default_config mail

abbrev letter : TaskBuilder
letter = raw_payload (new "email:send") (123 ∷ 125 ∷ [])

abbrev failed_mail : Task
failed_mail = record mail { retry_cnt = 1 }

parse-render_example : parse (render (key Family.dead "mail")) ≡ some (key Family.dead "mail")
parse-render_example = Parsing.parse-render (key Family.dead "mail")

-- ===== src/Tests/Schedules.antt =====
-- The theorems on the scheduler at concrete data.
use rediq.Prelude.{◌+◌, pos, ◌≡◌, refl, some, [], ◌∷◌}
use rediq.Errors.{err, redis, wrong_type}
use rediq.Keys.{Family, key}
use rediq.Redis.{text, bytes}
use rediq.Redis.Server.{outcome, memory}
use rediq.Redis.Client.{move_expired_tasks_lua}
use rediq.Config.{default_config}
use rediq.Client.{Cron}
use rediq.Scheduler.{check_cron_tasks}
use rediq.Scheduler.Moving
use rediq.Scheduler.Moving.{IsMoved}
use rediq.Scheduler.Firing
use rediq.Tests.Samples.{packed, codec, mail, with_delayed, ranks_delayed, with_cron}

move_expired-IsMoved_example :
    IsMoved (key Family.delayed "mail") (key Family.queue "mail") ("a1" ∷ []) ranks_delayed [] 1 (
      outcome memory
        (move_expired_tasks_lua (key Family.delayed "mail") (key Family.queue "mail") (pos 100) 100)
        with_delayed)
move_expired-IsMoved_example =
    Moving.move_expired-IsMoved memory with_delayed (key Family.delayed "mail")
      (key Family.queue "mail") 100 100 ranks_delayed [] refl refl refl refl

-- Every line is a schedule of every sixty seconds.
abbrev pub minutely : Cron
minutely = record { parse = λ line. some (λ now. some (now + 60)) }

check_cron_fails_example :
    outcome memory
      (check_cron_tasks codec default_config minutely (λ id. id) ("mail" ∷ []) 100)
      with_cron
    ≡ (err (redis wrong_type), with_cron)
check_cron_fails_example =
    Firing.check_cron_fails codec default_config minutely (λ id. id) memory with_cron "mail" [] 100
      "a1" (("data", bytes (packed mail)) ∷ ("queue", text "mail") ∷ []) (some 86400)
      (("a1", pos 60) ∷ []) [] refl refl refl

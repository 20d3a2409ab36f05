-- ===== src/Tests/Utils.antt =====
-- The theorems on the context of handlers and the command line at concrete data.
use Prim.Native.String.{◌++◌}
use rediq.Prelude.{ℕ, false, true, ◌≡◌, refl, some, List, [], ◌∷◌, pos, arith}
use rediq.Keys.{Family, key}
use rediq.Redis.Server.{outcome, memory}
use rediq.Progress.{new_progress, default_progress}
use rediq.Processor.Context.{HandlerContext, new_context, report_progress}
use rediq.Processor.Context.Reporting
use rediq.Cli.Utils.{parse_redis_url}
use rediq.Cli.Utils.Addresses
use rediq.Cli.Commands.Untouched
use rediq.Cli.Commands.Untouched.{look, purging}
use rediq.Errors.{ok}
use rediq.Cli.Dashboard.{Floats}
use rediq.Cli.Dashboard.Input.{enter, down, esc}
use rediq.Cli.Dashboard.Drawing.{Screen, shown}
use rediq.Cli.Dashboard.Running.{Round, Ending, idle, pressed, run}
use rediq.Cli.Dashboard.Sound.Loop
use rediq.Cli.Dashboard.Sound.Loop.{IsExplained}
use rediq.Tests.Samples.{codec, with_letters, with_waiting}

abbrev context : HandlerContext
context = new_context "a1" (some (new_progress "a1" default_progress 5000)) false

report_progress_own_example :
    (outcome memory (report_progress 40 6000 100 context) with_waiting).1 (key Family.queue "mail")
    ≡ with_waiting (key Family.queue "mail")
report_progress_own_example =
    Reporting.report_progress_own memory with_waiting 40 6000 100 context (key Family.queue "mail")
      (λ p e. ground (arith, e)) refl

-- The host is an address of version 6.
parse_redis_url-eq_example :
    parse_redis_url
      ("redis://" ++ (":" ++ ("s:e" ++ ("@" ++ ("::1" ++ (":" ++ ("6380" ++ ("/" ++ "2"))))))))
    ≡ record { host = "::1"; port = 6380; password = some "s:e"; db = pos 2 }
parse_redis_url-eq_example =
    Addresses.parse_redis_url-eq "::1" "6380" "2"
      (record {
        host_whole = (refl, refl);
        port_whole = (refl, refl, refl);
        db_whole = (refl, refl);
      })
      6380 (pos 2) refl refl "s:e" refl

-- Rates are not shown.
abbrev pub no_floats : Floats (Unit {0})
no_floats = record {
  zero_rate = tt;
  twenty = tt;
  percent = λ m n. tt;
  permille = λ m n. m;
  per_second = λ m n. tt;
  above = λ x y. false;
  text_of = λ x. "";
}

abbrev pub screen : ℕ → Screen
screen height = record {
  height = height;
  panel_height = 10;
  overflow_checks = true;
  now = 100;
  has_local_time = λ t. true;
  rendering = shown;
}

-- The list of tasks is opened, gone down, and left, and then the terminal is made too small.
abbrev presses : List Round
presses =
    record { screen = screen 40; polled = pressed enter; instant = 10; due = true }
    ∷ record { screen = screen 40; polled = pressed down; instant = 20; due = false }
    ∷ record { screen = screen 40; polled = pressed esc; instant = 30; due = true }
    ∷ record { screen = screen 40; polled = idle; instant = 35; due = true }
    ∷ record { screen = screen 17; polled = idle; instant = 40; due = true }
    ∷ []

run-IsExplained_example :
    (o : Ending (Unit {0})) × ((outcome memory (run codec no_floats presses 0) with_letters).0
      ≡ ok o)
    × IsExplained o
run-IsExplained_example = Loop.run-IsExplained codec no_floats presses 0 memory with_letters

look_untouched_example :
    (outcome memory
      (look codec (λ l. "[]") (purging "redis://localhost" true true false 1000))
      with_waiting).1
    ≡ with_waiting
look_untouched_example =
    Untouched.look_untouched codec (λ l. "[]") (purging "redis://localhost" true true false 1000)
      memory with_waiting

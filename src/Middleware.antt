-- ===== src/Middleware.antt =====
-- middleware/mod.rs (rediq/src/middleware/mod.rs): the chain of hooks around a handler. What the
-- middlewares keep between calls is a state `S` that each hook passes on.
pub mod Hooks
use rediq.Prelude.{ℕ, String, Bool, true, false, List, [], ◌∷◌, snoc, if◌then◌else◌}
use rediq.Errors.{Error, Result, ok, err}
use rediq.Task.{Task}

pub record Middleware (S : Type 0) : Type 0 where
  pub before : Task → S → Result (Unit {0}) × S
  pub after : Task → Result (Unit {0}) → S → Result (Unit {0}) × S

-- The trait's own hooks, for a middleware that leaves one out.
abbrev pub default_before : {S : Type 0} → Task → S → Result (Unit {0}) × S
default_before t s = (ok tt, s)

abbrev pub default_after : {S : Type 0} → Task → Result (Unit {0}) → S → Result (Unit {0}) × S
default_after t r s = (ok tt, s)

pub record MiddlewareChain (S : Type 0) : Type 0 where
  pub middlewares : List (Middleware S)

module _ {S : Type 0} where
  abbrev pub new_chain : MiddlewareChain S
  new_chain = record { middlewares = [] }

  unfoldable pub add : MiddlewareChain S → Middleware S → MiddlewareChain S
  add c m = record { middlewares = snoc c.middlewares m }

  -- `?` behind a hook.
  abbrev pub go_on : (S → Result (Unit {0}) × S) → Result (Unit {0}) × S → Result (Unit {0}) × S
  go_on rest (ok _, s) = rest s
  go_on rest (err e, s) = (err e, s)

  abbrev pub before_each : List (Middleware S) → Task → S → Result (Unit {0}) × S
  before_each [] t s = (ok tt, s)
  before_each (m ∷ ms) t s = go_on (before_each ms t) (m.before t s)

  unfoldable pub chain_before : MiddlewareChain S → Task → S → Result (Unit {0}) × S
  chain_before c t s = before_each c.middlewares t s

  abbrev pub after_each : List (Middleware S) → Task → Result (Unit {0}) → S → Result (Unit {0}) × S
  after_each [] t r s = (ok tt, s)
  after_each (m ∷ ms) t r s = go_on (after_each ms t r) (m.after t r s)

  unfoldable pub chain_after :
      MiddlewareChain S → Task → Result (Unit {0}) → S → Result (Unit {0}) × S
  chain_after c t r s = after_each c.middlewares t r s

  abbrev pub no_middleware : List (Middleware S) → Bool
  no_middleware [] = true
  no_middleware (m ∷ ms) = false

  unfoldable pub is_empty : MiddlewareChain S → Bool
  is_empty c = no_middleware c.middlewares

-- A line that one of the two middlewares below writes to the log.
pub data LogLine : Type 0 where
  processing_details : String → String → String → ℕ → LogLine
  processing completed started succeeded not_succeeded : String → LogLine
  failed : String → Error → LogLine

abbrev pub write : LogLine → List LogLine → Result (Unit {0}) × List LogLine
write line log = (ok tt, snoc log line)

pub record LoggingMiddleware : Type 0 where
  pub log_details : Bool

abbrev pub new_logging : LoggingMiddleware
new_logging = record { log_details = false }

unfoldable pub with_details : LoggingMiddleware → LoggingMiddleware
with_details l = record l { log_details = true }

abbrev pub logged_start : LoggingMiddleware → Task → LogLine
logged_start l t =
    if l.log_details
    then processing_details t.task_type t.id t.queue t.retry_cnt
    else processing t.id

abbrev pub logged_end : Task → Result (Unit {0}) → LogLine
logged_end t (ok _) = completed t.id
logged_end t (err e) = failed t.id e

unfoldable pub logging : LoggingMiddleware → Middleware (List LogLine)
logging l = record { before = λ t. write (logged_start l t); after = λ t r. write (logged_end t r) }

abbrev pub measured_end : Task → Result (Unit {0}) → LogLine
measured_end t (ok _) = succeeded t.id
measured_end t (err _) = not_succeeded t.id

-- `MetricsMiddleware` writes to the log too.
unfoldable pub metrics : Middleware (List LogLine)
metrics = record { before = λ t. write (started t.id); after = λ t r. write (measured_end t r) }

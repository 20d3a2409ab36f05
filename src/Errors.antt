-- ===== src/Errors.antt =====
-- error.rs (rediq/src/error.rs): the error values, their classes, and the retry strategies.
pub mod Retrying
pub mod Delays
use Prim.Native.String.{◌++◌}
use rediq.Prelude.{ℕ, String, Bool, true, false, Option, none, some}

-- A Redis error carries the server's reply class; only the wrong-type reply is told apart.
pub data RedisError : Type 0 where
  wrong_type : RedisError
  unknown_reply : String → RedisError

pub data Error : Type 0 where
  redis : RedisError → Error
  serialization validation task_not_found queue_not_found : String → Error
  queue_paused handler timeout connection config metrics : String → Error
  shutdown : Error
  unknown : String → Error

pub data Result {ℓ} (A : Type ℓ) : Type ℓ where
  ok : A → Result A
  err : Error → Result A

unfoldable pub is_retryable : Error → Bool
is_retryable (redis _) = true
is_retryable (connection _) = true
is_retryable (timeout _) = true
is_retryable _ = false

unfoldable pub is_fatal : Error → Bool
is_fatal (validation _) = true
is_fatal (config _) = true
is_fatal shutdown = true
is_fatal _ = false

-- Seconds.
unfoldable pub retry_after : Error → Option ℕ
retry_after (timeout _) = some 60
retry_after (connection _) = some 5
retry_after (redis _) = some 1
retry_after _ = none

abbrev pub redis_text : RedisError → String
redis_text wrong_type = "WRONGTYPE"
redis_text (unknown_reply s) = s

-- The texts that `thiserror` makes.
unfoldable pub display : Error → String
display (redis r) = "Redis error: " ++ redis_text r
display (serialization s) = "Serialization error: " ++ s
display (validation s) = "Task validation error: " ++ s
display (task_not_found s) = "Task not found: " ++ s
display (queue_not_found s) = "Queue not found: " ++ s
display (queue_paused s) = "Queue is paused: " ++ s
display (handler s) = "Handler error: " ++ s
display (timeout s) = "Task timeout: " ++ s
display (connection s) = "Connection error: " ++ s
display (config s) = "Configuration error: " ++ s
display (metrics s) = "Metrics error: " ++ s
display shutdown = "Shutdown requested"
display (unknown s) = "Unknown error: " ++ s

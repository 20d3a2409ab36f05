-- ===== src/Server.antt =====
-- server/config.rs (rediq/src/server/config.rs): the settings of a server and their builder. What uuid
-- makes and the factor of the heartbeat's expiry, a float there, are arguments.
pub mod Building
pub mod Starting
use Prim.Native.String.{◌++◌}
use rediq.Prelude.{
  ℕ, ◌==◌, String, Bool, true, false, Option, none, some, List, [], ◌∷◌, if◌then◌else◌,
}
use rediq.Errors.{Result, ok, err, config}
use rediq.Redis.Connecting.{
  RedisMode, PoolConfig, default_pool, Fred, ◌>>=◌, from_url_with_pool_config,
  from_cluster_url_with_pool_config, from_sentinel_url_with_pool_config,
}
use rediq.Middleware
use rediq.Middleware.{Middleware, MiddlewareChain, new_chain}
use rediq.Aggregator.{AggregatorConfig, AggregatorManager, new_manager, set_default_config}
use rediq.Janitor.{JanitorConfig}

-- `F` holds the floats.
pub record ServerConfig (F : Type 0) : Type 0 where
  pub redis_url : String
  pub redis_mode : RedisMode
  pub pool_config : PoolConfig
  pub queues : List String
  pub concurrency : ℕ
  pub heartbeat_interval : ℕ
  pub worker_timeout : ℕ
  pub heartbeat_ttl_multiplier : F
  pub dequeue_timeout : ℕ
  pub poll_interval : ℕ
  pub server_name : String
  pub enable_scheduler : Bool
  pub aggregator_config : Option AggregatorConfig
  pub janitor_config : Option JanitorConfig

abbrev pub default_server : {F : Type 0} → F → String → ServerConfig F
default_server two uuid = record {
  redis_url = "redis://localhost:6379";
  redis_mode = RedisMode.standalone;
  pool_config = default_pool;
  queues = "default" ∷ [];
  concurrency = 10;
  heartbeat_interval = 5;
  worker_timeout = 30;
  heartbeat_ttl_multiplier = two;
  dequeue_timeout = 2;
  poll_interval = 100;
  server_name = "rediq-server-" ++ uuid;
  enable_scheduler = true;
  aggregator_config = none;
  janitor_config = none;
}

pub record ServerBuilder (F S : Type 0) : Type 0 where
  pub config : ServerConfig F
  pub middleware : MiddlewareChain S

module _ {F S : Type 0} where
  abbrev pub new_builder : F → String → ServerBuilder F S
  new_builder two uuid = record { config = default_server two uuid; middleware = new_chain }

  unfoldable pub with_middleware : ServerBuilder F S → Middleware S → ServerBuilder F S
  unfolding Middleware.add
  with_middleware b m = record b { middleware = Middleware.add b.middleware m }

  -- A setter changes the settings.
  abbrev pub changed : ServerBuilder F S → ServerConfig F → ServerBuilder F S
  changed b c = record b { config = c }

  unfoldable pub redis_url : ServerBuilder F S → String → ServerBuilder F S
  redis_url b url = changed b (record b.config { redis_url = url })

  unfoldable pub cluster_mode : ServerBuilder F S → ServerBuilder F S
  cluster_mode b = changed b (record b.config { redis_mode = RedisMode.cluster })

  unfoldable pub sentinel_mode : ServerBuilder F S → ServerBuilder F S
  sentinel_mode b = changed b (record b.config { redis_mode = RedisMode.sentinel })

  unfoldable pub set_queues : ServerBuilder F S → List String → ServerBuilder F S
  set_queues b queues = changed b (record b.config { queues = queues })

  unfoldable pub set_concurrency : ServerBuilder F S → ℕ → ServerBuilder F S
  set_concurrency b n = changed b (record b.config { concurrency = n })

  unfoldable pub set_heartbeat_interval : ServerBuilder F S → ℕ → ServerBuilder F S
  set_heartbeat_interval b n = changed b (record b.config { heartbeat_interval = n })

  unfoldable pub set_worker_timeout : ServerBuilder F S → ℕ → ServerBuilder F S
  set_worker_timeout b n = changed b (record b.config { worker_timeout = n })

  -- A factor of 1 or less is set too, with a warning in the log.
  unfoldable pub set_heartbeat_ttl_multiplier : ServerBuilder F S → F → ServerBuilder F S
  set_heartbeat_ttl_multiplier b x = changed b (record b.config { heartbeat_ttl_multiplier = x })

  unfoldable pub set_dequeue_timeout : ServerBuilder F S → ℕ → ServerBuilder F S
  set_dequeue_timeout b n = changed b (record b.config { dequeue_timeout = n })

  unfoldable pub set_poll_interval : ServerBuilder F S → ℕ → ServerBuilder F S
  set_poll_interval b n = changed b (record b.config { poll_interval = n })

  unfoldable pub set_server_name : ServerBuilder F S → String → ServerBuilder F S
  set_server_name b name = changed b (record b.config { server_name = name })

  unfoldable pub disable_scheduler : ServerBuilder F S → ServerBuilder F S
  disable_scheduler b = changed b (record b.config { enable_scheduler = false })

  abbrev pub pooled : ServerBuilder F S → PoolConfig → ServerBuilder F S
  pooled b p = changed b (record b.config { pool_config = p })

  unfoldable pub set_pool_size : ServerBuilder F S → ℕ → ServerBuilder F S
  set_pool_size b n = pooled b (record b.config.pool_config { pool_size = n })

  unfoldable pub set_min_idle : ServerBuilder F S → ℕ → ServerBuilder F S
  set_min_idle b n = pooled b (record b.config.pool_config { min_idle = some n })

  unfoldable pub set_connection_timeout : ServerBuilder F S → ℕ → ServerBuilder F S
  set_connection_timeout b n =
      pooled b (record b.config.pool_config { connection_timeout = some n })

  unfoldable pub set_idle_timeout : ServerBuilder F S → ℕ → ServerBuilder F S
  set_idle_timeout b n = pooled b (record b.config.pool_config { idle_timeout = some n })

  unfoldable pub set_max_lifetime : ServerBuilder F S → ℕ → ServerBuilder F S
  set_max_lifetime b n = pooled b (record b.config.pool_config { max_lifetime = some n })

  unfoldable pub set_aggregator_config : ServerBuilder F S → AggregatorConfig → ServerBuilder F S
  set_aggregator_config b c = changed b (record b.config { aggregator_config = some c })

  unfoldable pub set_janitor_config : ServerBuilder F S → JanitorConfig → ServerBuilder F S
  set_janitor_config b c = changed b (record b.config { janitor_config = some c })

-- The state that the parts of a server share.
pub record ServerState (F S P : Type 0) : Type 0 where
  pub config : ServerConfig F
  pub redis : P
  pub middleware : MiddlewareChain S
  pub aggregator : AggregatorManager

abbrev pub manager_for : Option AggregatorConfig → AggregatorManager
manager_for none = new_manager
manager_for (some c) = set_default_config new_manager c

module _ {C P : Type 0} (fred : Fred C P) where
  abbrev pub connect : RedisMode → String → PoolConfig → Result P
  connect RedisMode.standalone url pool = from_url_with_pool_config fred url pool
  connect RedisMode.cluster url pool = from_cluster_url_with_pool_config fred url pool
  connect RedisMode.sentinel url pool = from_sentinel_url_with_pool_config fred url pool

abbrev pub has_queues : List String → Bool
has_queues [] = false
has_queues (q ∷ qs) = true

module _ {F S C P : Type 0} (fred : Fred C P) where
  abbrev pub build_checked : ServerBuilder F S → Result (ServerState F S P)
  build_checked b = do
    redis ← connect fred b.config.redis_mode b.config.redis_url b.config.pool_config
    fred.ping redis >>= λ _. ok (record {
      config = b.config;
      redis = redis;
      middleware = b.middleware;
      aggregator = manager_for b.config.aggregator_config;
    })

  unfoldable pub build_server : ServerBuilder F S → Result (ServerState F S P)
  build_server b =
      if b.config.concurrency == 0
      then err (config "concurrency must be greater than 0")
      else if has_queues b.config.queues
      then (if b.config.heartbeat_interval == 0
          then err (config "heartbeat_interval must be greater than 0")
          else build_checked b)
      else err (config "at least one queue must be specified")

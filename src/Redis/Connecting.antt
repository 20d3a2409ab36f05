-- ===== src/Redis/Connecting.antt =====
-- Connecting to Redis (rediq/src/storage/redis/mod.rs). Fred's parsing of an address, its pool and PING
-- are arguments; the logging is left out.
use rediq.Prelude.{ℕ, String, Option, none, some}
use rediq.Errors.{Result, ok, err}

pub data RedisMode : Type 0 where
  standalone cluster sentinel : RedisMode

pub record PoolConfig : Type 0 where
  pub pool_size : ℕ
  pub min_idle : Option ℕ
  pub connection_timeout : Option ℕ
  pub idle_timeout : Option ℕ
  pub max_lifetime : Option ℕ

abbrev pub default_pool : PoolConfig
default_pool = record {
  pool_size = 10;
  min_idle = none;
  connection_timeout = none;
  idle_timeout = none;
  max_lifetime = none;
}

abbrev pub new_pool_config : ℕ → PoolConfig
new_pool_config size = record default_pool { pool_size = size }

unfoldable pub with_min_idle : PoolConfig → ℕ → PoolConfig
with_min_idle c n = record c { min_idle = some n }

unfoldable pub with_connection_timeout : PoolConfig → ℕ → PoolConfig
with_connection_timeout c n = record c { connection_timeout = some n }

unfoldable pub with_idle_timeout : PoolConfig → ℕ → PoolConfig
with_idle_timeout c n = record c { idle_timeout = some n }

unfoldable pub with_max_lifetime : PoolConfig → ℕ → PoolConfig
with_max_lifetime c n = record c { max_lifetime = some n }

pub record RedisConfig : Type 0 where
  pub url : String
  pub pool_config : PoolConfig
  pub mode : RedisMode

abbrev pub default_redis : RedisConfig
default_redis = record {
  url = "redis://localhost:6379";
  pool_config = default_pool;
  mode = RedisMode.standalone;
}

-- Fred: addresses parse to configurations, from which pools of a size are made and opened.
pub record Fred (C P : Type 0) : Type 0 where
  pub from_url : String → Result C
  pub new_pool : C → ℕ → Result P
  pub init : P → Result (Unit {0})
  pub ping : P → Result String

-- `?` on plain results.
infixl 5 ◌>>=◌
abbrev pub ◌>>=◌ : {A C : Type 0} → Result A → (A → Result C) → Result C
ok a >>= f = f a
err e >>= f = err e

module _ {C P : Type 0} (fred : Fred C P) where
  -- `RedisClient::new`: the client is its pool.
  unfoldable pub new_client : RedisConfig → Result P
  new_client c = do
    redis_config ← fred.from_url c.url
    pool ← fred.new_pool redis_config c.pool_config.pool_size
    fred.init pool >>= λ _. ok pool

  unfoldable pub from_url_with_pool_config : String → PoolConfig → Result P
  from_url_with_pool_config url c = do
    redis_config ← fred.from_url url
    pool ← fred.new_pool redis_config c.pool_size
    fred.init pool >>= λ _. ok pool

  unfoldable pub from_url : String → Result P
  unfolding from_url_with_pool_config
  from_url url = from_url_with_pool_config url default_pool

  unfoldable pub from_url_with_pool : String → ℕ → Result P
  unfolding from_url_with_pool_config
  from_url_with_pool url size = from_url_with_pool_config url (new_pool_config size)

  unfoldable pub from_cluster_url_with_pool_config : String → PoolConfig → Result P
  from_cluster_url_with_pool_config url c = do
    redis_config ← fred.from_url url
    pool ← fred.new_pool redis_config c.pool_size
    fred.init pool >>= λ _. ok pool

  unfoldable pub from_cluster_url : String → Result P
  unfolding from_cluster_url_with_pool_config
  from_cluster_url url = from_cluster_url_with_pool_config url default_pool

  unfoldable pub from_cluster_url_with_pool : String → ℕ → Result P
  unfolding from_cluster_url_with_pool_config
  from_cluster_url_with_pool url size = from_cluster_url_with_pool_config url (new_pool_config size)

  unfoldable pub from_sentinel_url_with_pool_config : String → PoolConfig → Result P
  from_sentinel_url_with_pool_config url c = do
    redis_config ← fred.from_url url
    pool ← fred.new_pool redis_config c.pool_size
    fred.init pool >>= λ _. ok pool

  unfoldable pub from_sentinel_url : String → Result P
  unfolding from_sentinel_url_with_pool_config
  from_sentinel_url url = from_sentinel_url_with_pool_config url default_pool

  unfoldable pub from_sentinel_url_with_pool : String → ℕ → Result P
  unfolding from_sentinel_url_with_pool_config
  from_sentinel_url_with_pool url size =
      from_sentinel_url_with_pool_config url (new_pool_config size)

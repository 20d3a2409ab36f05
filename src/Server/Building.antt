-- ===== src/Server/Building.antt =====
-- When a server is built, and on which connection (rediq/src/server/config.rs,
-- rediq/src/storage/redis/mod.rs).
use rediq.Prelude.{
  ◌==◌, ◌≡◌, refl, ap, ◌∙◌, String, Option, none, some, Bool-cases, inl, inr, if◌then◌else◌,
}
use rediq.Errors.{Error, Result, ok, err, config}
use rediq.Redis.Connecting.{
  RedisMode, PoolConfig, Fred, ◌>>=◌, from_url_with_pool_config, from_cluster_url_with_pool_config,
  from_sentinel_url_with_pool_config,
}
use rediq.Server.{
  ServerBuilder, ServerState, manager_for, connect, build_checked, has_queues, build_server,
}

abbrev pub client_of : {F S P : Type 0} → Result (ServerState F S P) → Result P
client_of (ok st) = ok st.redis
client_of (err e) = err e

module _ {C P : Type 0} (fred : Fred C P) where
  connect_any_mode :
      (m n : RedisMode) (url : String) (pool : PoolConfig)
      → connect fred m url pool ≡ connect fred n url pool
  unfolding from_url_with_pool_config from_cluster_url_with_pool_config
      from_sentinel_url_with_pool_config
  connect_any_mode RedisMode.standalone RedisMode.standalone url pool = refl
  connect_any_mode RedisMode.standalone RedisMode.cluster url pool = refl
  connect_any_mode RedisMode.standalone RedisMode.sentinel url pool = refl
  connect_any_mode RedisMode.cluster RedisMode.standalone url pool = refl
  connect_any_mode RedisMode.cluster RedisMode.cluster url pool = refl
  connect_any_mode RedisMode.cluster RedisMode.sentinel url pool = refl
  connect_any_mode RedisMode.sentinel RedisMode.standalone url pool = refl
  connect_any_mode RedisMode.sentinel RedisMode.cluster url pool = refl
  connect_any_mode RedisMode.sentinel RedisMode.sentinel url pool = refl

module _ {F S C P : Type 0} (fred : Fred C P) (b : ServerBuilder F S) where
  -- The connection that a standalone server gets, once PING answers.
  abbrev answering : Result P
  answering = do
    redis ← connect fred RedisMode.standalone b.config.redis_url b.config.pool_config
    fred.ping redis >>= λ _. ok redis

  pinged :
      (redis : P) (answer : Result String) (f : P → ServerState F S P)
      → ((p : P) → (f p).redis ≡ p)
      → client_of (answer >>= λ _. ok (f redis)) ≡ (answer >>= λ _. ok redis)
  pinged redis (ok a) f h = ap ok (h redis)
  pinged redis (err e) f h = refl

  client_of_connection :
      (r : Result P) (f : P → ServerState F S P)
      → ((p : P) → (f p).redis ≡ p)
      → client_of (do redis ← r; fred.ping redis >>= λ _. ok (f redis))
        ≡ (do redis ← r; fred.ping redis >>= λ _. ok redis)
  client_of_connection (ok redis) f h = pinged redis (fred.ping redis) f h
  client_of_connection (err e) f h = refl

  client_of-build_checked : client_of (build_checked fred b) ≡ answering
  client_of-build_checked =
      client_of_connection
        (connect fred b.config.redis_mode b.config.redis_url b.config.pool_config)
        (λ redis. record {
          config = b.config;
          redis = redis;
          middleware = b.middleware;
          aggregator = manager_for b.config.aggregator_config;
        })
        (λ p. refl)
      ∙ ap (λ (r : Result P). do redis ← r; fred.ping redis >>= λ _. ok redis)
          (connect_any_mode fred b.config.redis_mode RedisMode.standalone b.config.redis_url
            b.config.pool_config)

  -- The settings that the builder refuses.
  abbrev refusal : Option Error
  refusal =
      if b.config.concurrency == 0
      then some (config "concurrency must be greater than 0")
      else if has_queues b.config.queues
      then (if b.config.heartbeat_interval == 0
          then some (config "heartbeat_interval must be greater than 0")
          else none)
      else some (config "at least one queue must be specified")

  abbrev unless : Option Error → Result P → Result P
  unless none r = r
  unless (some e) r = err e

  -- `build` refuses a concurrency of zero, an empty list of queues and a heartbeat interval of
  -- zero, in this order; otherwise it fails as the connection or PING does, or gives the
  -- connection of a standalone server, in each of the three modes.
  pub client_of-build_server : client_of (build_server fred b) ≡ unless refusal answering
  unfolding build_server
  client_of-build_server = elim (Bool-cases (b.config.concurrency == 0)) [
    | inl y ↦ rw y refl
    | inr n ↦ rw n (elim (Bool-cases (has_queues b.config.queues)) [
      | inl q ↦ rw q (elim (Bool-cases (b.config.heartbeat_interval == 0)) [
        | inl z ↦ rw z refl
        | inr p ↦ rw p client_of-build_checked
      ])
      | inr q ↦ rw q refl
    ])
  ]

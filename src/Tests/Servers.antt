-- ===== src/Tests/Servers.antt =====
-- The theorems on building and running a server at concrete data.
use rediq.Prelude.{ℕ, String, ◌≡◌}
use rediq.Errors.{ok}
use rediq.Redis.Connecting.{Fred}
use rediq.Server.{ServerBuilder, new_builder, cluster_mode, build_server}
use rediq.Server.Building
use rediq.Server.Building.{client_of}

-- A pool is its address and its size.
abbrev fred : Fred String (String × ℕ)
fred = record {
  from_url = λ url. ok url;
  new_pool = λ url size. ok (url, size);
  init = λ pool. ok tt;
  ping = λ pool. ok "PONG";
}

abbrev builder : ServerBuilder (Unit {0}) (Unit {0})
builder = new_builder tt "1"

-- In the cluster mode the connection is that of a standalone server.
client_of-build_server_example :
    client_of (build_server fred (cluster_mode builder)) ≡ ok ("redis://localhost:6379", 10)
unfolding cluster_mode rediq.Redis.Connecting.from_url_with_pool_config
client_of-build_server_example = Building.client_of-build_server fred (cluster_mode builder)

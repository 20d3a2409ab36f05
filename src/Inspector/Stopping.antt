-- ===== src/Inspector/Stopping.antt =====
-- What stopping a worker comes to (rediq/src/client/mod.rs, rediq/src/server/worker.rs).
use rediq.Prelude.{ℕ, suc, String, ◌≡◌, ◌∙◌, sym, none, some, arith, eq_refl}
use rediq.Keys.{Family, key}
use rediq.Redis.{number, ◌>>◌}
use rediq.Redis.Keyspace.{string, effect}
use rediq.Redis.Reads.{put-put}
use rediq.Redis.Server.{Server, outcome, outcome-eq-replay, replay}
use rediq.Worker.Membership.{update_heartbeat}
use rediq.Inspector.{stop_worker}

module _ {B : Type 0} (s : Server B) (db : s.Db) (worker_id : String) (ttl now : ℕ) where
  -- A heartbeat with a positive expiry that follows `stop_worker` leaves the same data and result
  -- as without `stop_worker`: stopping a worker leaves no trace.
  pub stop_worker-update_heartbeat :
      outcome s (do stop_worker worker_id; update_heartbeat worker_id (suc ttl) now) db
      ≡ outcome s (update_heartbeat worker_id (suc ttl) now) db
  unfolding replay effect stop_worker update_heartbeat
  stop_worker-update_heartbeat =
      let k = key Family.meta_heartbeat worker_id in
      let ks = s.view db in
      outcome-eq-replay s (do stop_worker worker_id; update_heartbeat worker_id (suc ttl) now) db
      ∙ ground (arith, eq_refl worker_id, put-put ks k none (some (string (number now), none)))
      ∙ sym (outcome-eq-replay s (update_heartbeat worker_id (suc ttl) now) db)

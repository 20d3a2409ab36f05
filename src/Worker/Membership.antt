-- ===== src/Worker/Membership.antt =====
-- Joining and leaving: `register`, `unregister` and the heartbeat (rediq/src/server/worker.rs).
use rediq.Prelude.{ℕ, String, List, [], ◌∷◌}
use rediq.Keys.{Family, key}
use rediq.Redis.{number, bytes, Prog, done, pure, ◌>>=◌, ◌>>◌}
use rediq.Redis.Client.{set, sadd, srem, del, expire}
use rediq.Codec.{Codec, WorkerMetadata}

-- The heartbeat lives for the worker's timeout times a factor, computed with floats: it is given.
pub record Settings : Type 0 where
  pub server_name : String
  pub queues : List String
  pub heartbeat_ttl : ℕ

module _ {B : Type 0} where
  unfoldable pub update_heartbeat : String → ℕ → ℕ → Prog B (Unit {0})
  update_heartbeat worker_id ttl now = do
    set (key Family.meta_heartbeat worker_id) (number now)
    expire (key Family.meta_heartbeat worker_id) ttl
    pure tt

  abbrev pub add_queues : List String → Prog B (Unit {0})
  add_queues [] = pure tt
  add_queues (queue ∷ queues) = do sadd (key Family.meta_queues "") queue; add_queues queues

  unfoldable pub unregister : String → Prog B (Unit {0})
  unregister worker_id = do
    srem (key Family.meta_workers "") worker_id
    del (key Family.meta_worker worker_id ∷ [])
    del (key Family.meta_heartbeat worker_id ∷ [])
    pure tt

abbrev pub metadata : String → Settings → ℕ → WorkerMetadata
metadata worker_id s now = record {
  id = worker_id;
  server_name = s.server_name;
  queues = s.queues;
  started_at = now;
  last_heartbeat = now;
  processed_total = 0;
  status = "idle";
}

module _ {B : Type 0} (codec : Codec B) where
  unfoldable pub register : String → Settings → ℕ → Prog B (Unit {0})
  register worker_id s now = do
    packed ← done (codec.worker_to_vec (metadata worker_id s now))
    set (key Family.meta_worker worker_id) (bytes packed)
    sadd (key Family.meta_workers "") worker_id
    add_queues s.queues
    update_heartbeat worker_id s.heartbeat_ttl now

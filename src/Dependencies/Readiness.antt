-- ===== src/Dependencies/Readiness.antt =====
-- When a dependent task becomes ready (rediq/src/storage/dependencies.rs).
use rediq.Prelude.{String, ◌≡◌, ◌∙◌, some, List, [], ◌∷◌, ◌++◌, arith, remove_first, eq_refl}
use rediq.Errors.{ok}
use rediq.Keys.{Family, key}
use rediq.Redis.{Value}
use rediq.Redis.Keyspace.{
  Keyspace, as_list, as_set, as_hash, effect, field, store_list, store_set, erase,
}
use rediq.Redis.Server.{Server, outcome, outcome-eq-replay, replay}
use rediq.Codec.{Codec}
use rediq.Dependencies.{check_one}

module _ {B : Type 0} (codec : Codec B) (s : Server B) (db : s.Db) (completed dependent : String)
    (pending : List String)
    (p : as_set (s.view db (key Family.pending_deps dependent)) ≡ some pending) where
  abbrev pub resolved : Keyspace B
  resolved =
      store_set (s.view db) (key Family.pending_deps dependent) (remove_first completed pending)

  -- When a dependency of a task is finished and another one is pending, the finished one is taken
  -- from its pending ones, the task is not enqueued, and nothing else changes.
  pub check_one_waits :
      (next : String) (others : List String)
      → remove_first completed pending ≡ next ∷ others
      → outcome s (check_one codec completed dependent) db ≡ (ok 0, resolved)
  unfolding replay effect check_one
  check_one_waits next others h =
      outcome-eq-replay s (check_one codec completed dependent) db
      ∙ ground (arith, eq_refl dependent)

  -- When the last pending dependency of a task with a readable queue name is finished, the task
  -- is appended to its queue, counts as one enqueued, and its pending dependencies are forgotten;
  -- nothing else changes.
  pub check_one_ready :
      (h : List (String × Value B)) (v : Value B) (b : B) (queue : String) (waiting : List String)
      → remove_first completed pending ≡ []
      → as_hash (s.view db (key Family.task dependent)) ≡ some h
      → field "queue" h ≡ some v
      → codec.as_bytes v ≡ some b
      → codec.from_utf8 b ≡ ok queue
      → as_list (s.view db (key Family.queue queue)) ≡ some waiting
      → outcome s (check_one codec completed dependent) db ≡ (
        ok 1,
        erase
            (store_list resolved (key Family.queue queue) (waiting ++ dependent ∷ []))
            (key Family.pending_deps dependent),
      )
  unfolding replay effect check_one
  check_one_ready h v b queue waiting last d f r u w =
      outcome-eq-replay s (check_one codec completed dependent) db
      ∙ ground (arith, eq_refl dependent)

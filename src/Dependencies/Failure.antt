-- ===== src/Dependencies/Failure.antt =====
-- What becomes of the dependents of a task that failed for good (rediq/src/storage/dependencies.rs).
use rediq.Prelude.{String, ◌≡◌, ◌∙◌, some, List, [], ◌∷◌, arith}
use rediq.Errors.{ok}
use rediq.Keys.{Family, key}
use rediq.Redis.{bytes, text, Value}
use rediq.Redis.Keyspace.{
  as_list, as_hash, effect, store_list, erase, put_fields, store_hash, field,
}
use rediq.Redis.Server.{Server, outcome, outcome-eq-replay, replay}
use rediq.Task.{Task}
use rediq.Codec.{Codec}
use rediq.Dependencies.{fail_one, failed_dependent}

module _ {B : Type 0} (codec : Codec B) (s : Server B) (db : s.Db)
    (failed queue dependent : String) where
  -- A dependent of a failed task with readable details is stored as dead with the reason and the
  -- queue's name, comes to the head of the queue's dead tasks and counts as one, and its pending
  -- dependencies are forgotten; nothing else changes.
  pub fail_one_buries :
      (h : List (String × Value B)) (v : Value B) (b b' : B) (t : Task) (dead : List String)
      → as_hash (s.view db (key Family.task dependent)) ≡ some h
      → field "data" h ≡ some v
      → codec.as_bytes v ≡ some b
      → codec.from_slice b ≡ ok t
      → codec.to_vec (failed_dependent failed t) ≡ ok b'
      → as_list (s.view db (key Family.dead queue)) ≡ some dead
      → outcome s (fail_one codec failed queue dependent) db ≡ (
        ok 1,
        erase
            (store_list
              (store_hash
                (s.view db)
                (key Family.task dependent)
                (put_fields (("data", bytes b') ∷ ("queue", text queue) ∷ []) h))
              (key Family.dead queue)
              (dependent ∷ dead))
            (key Family.pending_deps dependent),
      )
  unfolding replay effect fail_one
  fail_one_buries h v b b' t dead d f r u p w =
      outcome-eq-replay s (fail_one codec failed queue dependent) db ∙ ground arith

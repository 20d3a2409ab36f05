-- ===== src/System/Waiting.antt =====
-- A task that waits for another one, from `enqueue` to its queue (rediq/src/client/builder.rs,
-- rediq/src/storage/dependencies.rs).
use rediq.Prelude.{ℕ, String, ◌≡◌, ap, ◌∙◌, none, some, List, [], ◌∷◌, ◌++◌, arith, eq_refl}
use rediq.Errors.{Result, ok}
use rediq.Keys.{Family, key}
use rediq.Redis.{◌>>◌}
use rediq.Redis.Keyspace.{Keyspace, set, erase, put, as_list, store_list, expiry, effect}
use rediq.Redis.Server.{Server, outcome, outcome-eq-replay, replay, replay-then, order_of_one}
use rediq.Redis.Reads.{as_list-list_slot}
use rediq.Config.{RediqConfig}
use rediq.Task.{Task}
use rediq.Codec.{Codec, IsFaithful}
use rediq.Client.{enqueue}
use rediq.Client.Enqueueing.{IsNew, after_storing, stored}
use rediq.Dependencies.{check_dependents, check_each, check_one}

module _ {B : Type 0} (codec : Codec B) (faithful : IsFaithful codec) (cfg : RediqConfig)
    (s : Server B) (db : s.Db) (t : Task) (now : ℕ) (packed : B) (ttl : ℕ)
    (new : IsNew codec cfg (s.view db) t packed ttl) (dep : String)
    (d : t.options.depends_on ≡ some (dep ∷ []))
    (p : s.view db (key Family.pending_deps t.id) ≡ none)
    (q : s.view db (key Family.task_deps dep) ≡ none) where
  abbrev waiting : Keyspace B
  waiting =
      put
        (put (stored codec cfg s db t now packed ttl new) (key Family.pending_deps t.id)
          (some (set (dep ∷ []), none)))
        (key Family.task_deps dep) (some (set (t.id ∷ []), none))

  entering : replay s.order (enqueue codec cfg t now) (s.view db) ≡ (ok t.id, waiting)
  unfolding replay effect
  entering =
      after_storing codec cfg s db t now packed ttl new ∙ ground (arith, d, p, q, eq_refl t.id)

  releasing :
      (l : List String)
      → as_list (s.view db (key Family.queue t.queue)) ≡ some l
      → replay s.order (check_dependents codec dep) waiting ≡ (
        ok 1,
        erase
            (erase
              (store_list
                (erase waiting (key Family.pending_deps t.id))
                (key Family.queue t.queue)
                (l ++ t.id ∷ []))
              (key Family.pending_deps t.id))
            (key Family.task_deps dep),
      )
  unfolding replay effect check_dependents check_each check_one
  releasing l w = ground (
    arith,
    w,
    eq_refl t.id,
    eq_refl dep,
    order_of_one s t.id,
    faithful.as_bytes-text t.queue,
    faithful.from_utf8-utf8 t.queue,
  )

  -- With a faithful codec, a new task that depends on one task only, where neither has dependency
  -- keys yet and the queue's list is readable, is counted and its identifier appended to the
  -- queue's list when `check_dependents` of that task runs right after `enqueue`.
  pub enqueue-check_dependents :
      (l : List String)
      → as_list (s.view db (key Family.queue t.queue)) ≡ some l
      → let after = outcome s (do enqueue codec cfg t now; check_dependents codec dep) db in
        (after.0 ≡ ok 1) × (as_list (after.1 (key Family.queue t.queue)) ≡ some (l ++ t.id ∷ []))
  enqueue-check_dependents l w =
      let whole =
        outcome-eq-replay s (do enqueue codec cfg t now; check_dependents codec dep) db
        ∙ replay-then s.order (enqueue codec cfg t now) (λ _. check_dependents codec dep)
            (s.view db) waiting t.id entering
        ∙ releasing l w in
      (
        ap (λ (o : Result ℕ × Keyspace B). o.0) whole,
        ap (λ (o : Result ℕ × Keyspace B). as_list (o.1 (key Family.queue t.queue))) whole
            ∙ ground (
              arith,
              eq_refl t.queue,
              as_list-list_slot B (expiry (waiting (key Family.queue t.queue))) (l ++ t.id ∷ []),
            ),
      )

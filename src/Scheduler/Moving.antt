-- ===== src/Scheduler/Moving.antt =====
-- Moving the due tasks of a sorted set to a queue (rediq/src/storage/redis/mod.rs, MOVE_EXPIRED_SCRIPT).
use rediq.Prelude.{
  zero, ◌≤◌, str_eq_sym, leb_ℤ, str_eq, Bool-cases, inl, inr, ℕ, suc, ℤ, pos, String, ◌≡◌, refl, ap,
  sym, ◌∙◌, none, some, List, [], ◌∷◌, ◌++◌, false, arith, eq_refl, length, contains, take,
}
use rediq.Errors.{Result, ok}
use mathlib.Core.List.{append-nil, append_assoc}
use rediq.Keys.{Key, key_eq}
use rediq.Keys.Names.{key_eq_refl}
use rediq.Redis.{send, zset_range_by_score}
use rediq.Redis.Keyspace.{
  Keyspace, as_list, as_zset, effect, store_list, store_zset, unrank, scored, expiry, names,
}
use rediq.Redis.Server.{Server, outcome, outcome-eq-replay, replay, replay-then}
use rediq.Redis.Reads.{as_zset-zset_slot, as_list-list_slot}
use rediq.Redis.Client.{
  integer, eval_script, move_expired_script, move_each, move_expired_tasks_lua,
}

abbrev pub unrank_all : List String → List (String × ℤ) → List (String × ℤ)
unrank_all [] l = l
unrank_all (m ∷ ms) l = unrank_all ms (unrank m l)

-- The identifiers that one run of the script moves.
abbrev pub due : ℕ → ℕ → List (String × ℤ) → List String
due now batch ranks = take batch (scored none (pos now) ranks)

-- After the run the source has lost the identifiers and the destination has got them, in order.
pub record IsMoved {B R : Type 0} (source dest : Key) (ids : List String)
    (ranks : List (String × ℤ)) (waiting : List String) (r : R) (after : Result R × Keyspace B)
    : Type 0 where
  pub replies : after.0 ≡ ok r
  pub left : as_zset (after.1 source) ≡ some (unrank_all ids ranks)
  pub moved : as_list (after.1 dest) ≡ some (waiting ++ ids)

module _ {B : Type 0} (order : List String → List String) (source dest : Key)
    (apart : key_eq source dest ≡ false) (apart' : key_eq dest source ≡ false) where
  moving :
      (ids : List String) (ks : Keyspace B) (ranks : List (String × ℤ)) (waiting : List String)
      → as_zset (ks source) ≡ some ranks
      → as_list (ks dest) ≡ some waiting
      → IsMoved source dest ids ranks waiting tt (replay order (move_each source dest ids) ks)
  unfolding replay effect
  moving [] ks ranks waiting z w = record {
    replies = refl;
    left = z;
    moved = w ∙ ap some (sym (append-nil waiting));
  }
  moving (id ∷ ids) ks ranks waiting z w =
      let first = store_zset ks source (unrank id ranks) in
      let ks' = store_list first dest (waiting ++ id ∷ []) in
      let z' : as_zset (ks' source) ≡ some (unrank id ranks) =
        ground
          (arith, key_eq_refl source, as_zset-zset_slot B (expiry (ks source)) (unrank id ranks)) in
      let w' : as_list (ks' dest) ≡ some (waiting ++ id ∷ []) =
        ground (
          arith,
          key_eq_refl dest,
          as_list-list_slot B (expiry (first dest)) (waiting ++ id ∷ []),
        ) in
      let rest = moving ids ks' (unrank id ranks) (waiting ++ id ∷ []) z' w' in
      let step : replay order (move_each source dest (id ∷ ids)) ks
          ≡ replay order (move_each source dest ids) ks' =
        ground arith in
      rw step (record {
        replies = rest.replies;
        left = rest.left;
        moved = rest.moved ∙ ap some (append_assoc waiting (id ∷ []) ids);
      })

module _ {B : Type 0} (s : Server B) (db : s.Db) (source dest : Key) (now batch : ℕ)
    (ranks : List (String × ℤ)) (waiting : List String) (apart : key_eq source dest ≡ false)
    (apart' : key_eq dest source ≡ false) (z : as_zset (s.view db source) ≡ some ranks)
    (w : as_list (s.view db dest) ≡ some waiting) where
  -- `move_expired_tasks_lua` between two different keys, a sorted set and a list, takes the
  -- members that are due, in the order of the set and at most a batch of them, from the set,
  -- appends them to the list in this order, and replies how many they are.
  pub move_expired-IsMoved :
      IsMoved source dest
        (due now batch ranks)
        ranks
        waiting
        (length (due now batch ranks))
        (outcome s (move_expired_tasks_lua source dest (pos now) batch) db)
  unfolding replay effect
  move_expired-IsMoved =
      rw (outcome-eq-replay s (move_expired_tasks_lua source dest (pos now) batch) db ∙ reply)
        (record { replies = refl; left = each.left; moved = each.moved })
    where
      ids : List String
      ids = due now batch ranks

      after : Result (Unit {0}) × Keyspace B
      after = replay s.order (move_each source dest ids) (s.view db)

      each : IsMoved source dest ids ranks waiting tt after
      each = moving s.order source dest apart apart' ids (s.view db) ranks waiting z w

      script :
          replay s.order (move_expired_script source dest (pos now) batch) (s.view db)
          ≡ (ok (integer (length ids)), after.1)
      script =
          replay-then s.order (send (zset_range_by_score source none (pos now) (some batch))) _
            (s.view db) (s.view db) ids (rw z refl)
          ∙ replay-then s.order (move_each source dest ids) _ (s.view db) after.1 tt
              (λ i. (each.replies i, after.1))

      reply :
          replay s.order (move_expired_tasks_lua source dest (pos now) batch) (s.view db)
          ≡ (ok (length ids), after.1)
      reply =
          replay-then s.order (eval_script (move_expired_script source dest (pos now) batch)) _
            (s.view db) after.1 _
            (replay-then s.order (move_expired_script source dest (pos now) batch) _ (s.view db)
              after.1 _ script)

-- Members of a sorted set are distinct.
abbrev pub AreDistinct : List (String × ℤ) → Type 0
AreDistinct [] = Unit
AreDistinct ((m, s) ∷ l) = (contains (names l) m ≡ false) × AreDistinct l

scored_lem :
    (m : String) (high : ℤ) (l : List (String × ℤ))
    → contains (names l) m ≡ false
    → contains (scored none high l) m ≡ false
scored_lem m high [] h = refl
scored_lem m high ((n, t) ∷ l) h = ground (arith, scored_lem m high l)

unrank_all-cons :
    (ids : List String) (m : String) (s : ℤ) (l : List (String × ℤ))
    → contains ids m ≡ false
    → unrank_all ids ((m, s) ∷ l) ≡ (m, s) ∷ unrank_all ids l
unfolding unrank
unrank_all-cons [] m s l h = refl
unrank_all-cons (id ∷ ids) m s l h =
    let differ : str_eq m id ≡ false = ground (arith, str_eq_sym id m) in
    rw differ (unrank_all-cons ids m s (unrank id l) (ground arith))

pub scored-unrank_all :
    (high : ℤ) (l : List (String × ℤ))
    → AreDistinct l
    → scored none high (unrank_all (scored none high l) l) ≡ []
unfolding unrank
scored-unrank_all high [] d = refl
scored-unrank_all high ((m, s) ∷ l) d = elim (Bool-cases (leb_ℤ s high)) [
  | inl y ↦ rw y (rw (eq_refl m) (scored-unrank_all high l d.1))
  | inr n ↦ rw n (
      rw (unrank_all-cons (scored none high l) m s l (scored_lem m high l d.0))
        (rw n (scored-unrank_all high l d.1)))
]

take_enough : (n : ℕ) (l : List String) → length l ≤ n → take n l ≡ l
take_enough zero [] h = refl
take_enough zero (x ∷ l) h = ground arith
take_enough (suc n) [] h = refl
take_enough (suc n) (x ∷ l) h = rw (take_enough n l (omega arith)) refl

module _ {B : Type 0} (s : Server B) (db : s.Db) (source dest : Key) (now batch : ℕ)
    (ranks : List (String × ℤ)) (waiting : List String) (apart : key_eq source dest ≡ false)
    (apart' : key_eq dest source ≡ false) (z : as_zset (s.view db source) ≡ some ranks)
    (w : as_list (s.view db dest) ≡ some waiting) where
  -- If the members of the sorted set are distinct and no more than a batch of them are due, then
  -- no member that a run of `move_expired_tasks_lua` between two different keys leaves in the set
  -- is due.
  pub move_expired_clears :
      AreDistinct ranks
      → length (scored none (pos now) ranks) ≤ batch
      → (left : List (String × ℤ)) × (as_zset
            ((outcome s (move_expired_tasks_lua source dest (pos now) batch) db).1 source)
          ≡ some left)
        × (scored none (pos now) left ≡ [])
  move_expired_clears d h =
      let all = take_enough batch (scored none (pos now) ranks) h in
      let run = move_expired-IsMoved s db source dest now batch ranks waiting apart apart' z w in
      (
        unrank_all (scored none (pos now) ranks) ranks,
        run.left ∙ rw all refl,
        scored-unrank_all (pos now) ranks d,
      )

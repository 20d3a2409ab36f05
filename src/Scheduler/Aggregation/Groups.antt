-- ===== src/Scheduler/Aggregation/Groups.antt =====
-- What `check_aggregation` does with one group (rediq/src/server/scheduler.rs).
use rediq.Prelude.{
  ℕ, suc, ◌^◌, ◌<◌, ◌≤◌, ℤ, negsuc, String, ◌≡◌, refl, ap, ◌∙◌, true, Option, none, some, List, [],
  ◌∷◌, ◌++◌, arith, eq_refl, ◌-◌, take, length, take-length,
}
use rediq.Errors.{ok}
use rediq.Keys.{Family, key}
use rediq.Redis.{Value, bytes, text, number, done, ◌>>=◌, ◌>>◌, pure}
use rediq.Redis.Client.{hget, hset, zrem, zrange}
use rediq.Redis.Kinds.{IsTyped, HasKind, Kind}
use rediq.Redis.Keyspace.{
  Entry, string, list, set, zset, hash, Keyspace, put, erase, effect, as_hash, as_list, as_zset,
  field, names, zset_slot, put_fields, store_hash, unrank, store_list, expiry,
}
use rediq.Redis.Reads.{put-put}
use rediq.Redis.Server.{Server, outcome, outcome-eq-replay, replay, replay-then}
use rediq.Task.{Task}
use rediq.Codec.{Codec}
use rediq.Aggregator.{Aggregator, AggregatorManager, get}
use rediq.System.Fifo.Holding.{data_of}
use rediq.Scheduler.Aggregation.{
  remove_all, unpacked_found, load_tasks, enqueue_made, combine, gathered, gather, check_group,
}

-- A key of hashes that holds data of its kind can be read as a hash.
hash_of_kind :
    {B : Type 0} (slot : Option (Entry B × Option ℕ))
    → HasKind Kind.hashes slot
    → (h : List (String × Value B)) × (as_hash slot ≡ some h)
hash_of_kind none k = ([], refl)
hash_of_kind (some (hash h, t)) k = (h, refl)
hash_of_kind (some (string v, t)) k = cc
hash_of_kind (some (list l, t)) k = cc
hash_of_kind (some (set l, t)) k = cc
hash_of_kind (some (zset l, t)) k = cc

module _ {B : Type 0} (codec : Codec B) where
  -- The tasks whose details unpack, in the order of the identifiers.
  abbrev pub tasks_of : Keyspace B → List String → List Task
  tasks_of ks [] = []
  tasks_of ks (id ∷ ids) = unpacked_found codec (data_of ks id) (tasks_of ks ids)

  loading :
      (order : List String → List String) (ks : Keyspace B) (ids : List String)
      → IsTyped ks
      → replay order (load_tasks codec ids) ks ≡ (ok (tasks_of ks ids), ks)
  unfolding replay effect
  loading order ks [] t = refl
  loading order ks (id ∷ ids) t =
      let (h, e) = hash_of_kind (ks (key Family.task id)) (t (key Family.task id)) in
      replay-then order (hget (key Family.task id) "data")
        (λ found. do rest ← load_tasks codec ids; pure (unpacked_found codec found rest)) ks ks
        (data_of ks id) (rw e refl)
      ∙ replay-then order (load_tasks codec ids)
          (λ rest. pure (unpacked_found codec (data_of ks id) rest)) ks ks (tasks_of ks ids)
          (loading order ks ids t)

module _ {B : Type 0} (order : List String → List String) (group : String) where
  removing :
      (ks : Keyspace B) (x : String) (score : ℤ) (l : List (String × ℤ))
      → as_zset (ks (key Family.group group)) ≡ some ((x, score) ∷ l)
      → replay order (remove_all group (x ∷ names l)) ks
        ≡ (ok tt, erase ks (key Family.group group))
  unfolding replay effect unrank
  removing ks x score [] e = ground (arith, eq_refl x)
  removing ks x score ((y, s) ∷ l) e =
      let k = key Family.group group in
      let ks' : Keyspace B = put ks k (zset_slot (expiry (ks k)) ((y, s) ∷ l)) in
      replay-then order (zrem k x) (λ _. remove_all group (y ∷ names l)) ks ks' true
        (ground (arith, eq_refl x))
      ∙ removing ks' y s l (rw (eq_refl group) refl)
      ∙ ap (λ (d : Keyspace B). (ok tt, d))
          (put-put ks k (zset_slot (expiry (ks k)) ((y, s) ∷ l)) none)

module _ {B : Type 0} (codec : Codec B) (s : Server B) (db : s.Db) (m : AggregatorManager)
    (group : String) (h : List (String × Value B)) (n : ℕ)
    (d : as_hash (s.view db (key Family.meta_group group)) ≡ some h)
    (c : field "count" h ≡ some (number n)) (small : n < 2 ^ 63) where
  -- A group whose count, below 2^63, is below the maximal size is left as it is.
  pub check_group_waits :
      n < m.default_config.max_size → outcome s (check_group codec m group) db ≡ (ok tt, s.view db)
  unfolding replay effect check_group
  check_group_waits w = outcome-eq-replay s (check_group codec m group) db ∙ ground (arith, d, c)

  module _ (x : String) (score : ℤ) (l : List (String × ℤ)) (agg : Aggregator)
      (full : m.default_config.max_size ≤ n)
      (members : as_zset (s.view db (key Family.group group)) ≡ some ((x, score) ∷ l))
      (known : get m group ≡ some agg) (typed : IsTyped (s.view db)) where
    gathering :
        replay s.order (check_group codec m group) (s.view db)
        ≡ replay s.order
            (combine codec group
              (x ∷ names l)
              (tasks_of codec (s.view db) (x ∷ names l))
              (some agg))
            (s.view db)
    unfolding replay effect check_group
    gathering =
        let ks = s.view db in
        let ids = x ∷ names l in
        let same : suc (length (names l)) - 0 - 0 ≡ suc (length (names l)) = omega arith in
        let begun : replay s.order (check_group codec m group) ks
            ≡ replay s.order (gather codec m group) ks =
          ground (arith, d, c) in
        let whole : replay s.order (zrange (key Family.group group) 0 (negsuc 0)) ks
            ≡ (ok ids, ks) =
          rw members
            (ap (λ (r : List String). (ok r, ks)) (ap (λ k. take k ids) same ∙ take-length ids)) in
        begun
        ∙ replay-then s.order (zrange (key Family.group group) 0 (negsuc 0))
            (gathered codec m group) ks ks ids whole
        ∙ replay-then s.order (load_tasks codec ids)
            (λ tasks. combine codec group ids tasks (get m group)) ks ks (tasks_of codec ks ids)
            (loading codec s.order ks ids typed)
        ∙ ap (λ a. replay s.order (combine codec group ids (tasks_of codec ks ids) a) ks) known

    -- For a group whose count, below 2^63, has come to the maximal size, that has members and an
    -- aggregator which makes a task of the members' tasks, where every key holds data of its
    -- type: the group's set is erased, its count is 0, and the new task's details are stored and
    -- its identifier is appended to its queue; nothing else changes.
    pub check_group_aggregates :
        (t : Task) (packed : B) (old : List (String × Value B)) (waiting : List String)
        → agg group (tasks_of codec (s.view db) (x ∷ names l)) ≡ ok (some t)
        → codec.to_vec t ≡ ok packed
        → as_hash (s.view db (key Family.task t.id)) ≡ some old
        → as_list (s.view db (key Family.queue t.queue)) ≡ some waiting
        → outcome s (check_group codec m group) db ≡ (
          ok tt,
          store_list
              (store_hash
                (store_hash
                  (erase (s.view db) (key Family.group group))
                  (key Family.meta_group group)
                  (put_fields (("count", number 0) ∷ []) h))
                (key Family.task t.id)
                (put_fields (("data", bytes packed) ∷ ("queue", text t.queue) ∷ []) old))
              (key Family.queue t.queue)
              (waiting ++ t.id ∷ []),
        )
    unfolding replay effect
    check_group_aggregates t packed old waiting made p o w =
        let ks = s.view db in
        outcome-eq-replay s (check_group codec m group) db
        ∙ gathering
        ∙ ap
            (λ r.
              replay s.order
                (do
                  made ← done r
                  remove_all group (x ∷ names l)
                  hset (key Family.meta_group group) (("count", number 0) ∷ [])
                  enqueue_made codec made)
                ks)
            made
        ∙ replay-then s.order (remove_all group (x ∷ names l))
            (λ _. do
              hset (key Family.meta_group group) (("count", number 0) ∷ [])
              enqueue_made codec (some t))
            ks (erase ks (key Family.group group)) tt (removing s.order group ks x score l members)
        ∙ ground (arith, d, p, o, w)

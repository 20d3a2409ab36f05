-- ===== src/Redis/Kinds.antt =====
-- Each family of keys holds one type of data (rediq/src/storage/keys.rs names the keys). A program that
-- sends only commands for the type of the key is safe from wrong-type errors.
use rediq.Prelude.{
  ℕ, zero, suc, ℤ, String, ◌≡◌, sym, inl, inr, Option, none, some, List, [], ◌∷◌, ◌++◌, contains,
  remove_first, if◌then◌else◌, Bool-cases,
}
use mathlib.Core.Path.{subst}
use rediq.Keys.Names.{key_eq-true}
use rediq.Keys.{Key, Family, key_eq}
use rediq.Redis.{
  Value, Command, set_value, get_value, del_keys, exists_key, expire_key, push_right, push_left,
  pop_left, list_length, list_range, list_remove_first, zset_add, zset_range, zset_range_by_score,
  zset_remove, set_add, set_is_member, set_remove, set_members, set_size, hash_set, hash_get,
  hash_increment, pop_right, zset_size, zset_range_scores, hash_get_all, time_left, ping_server,
}
use rediq.Redis.Keyspace.{
  Entry, string, list, set, zset, hash, Keyspace, put, erase, effect, as_list, as_set, as_zset,
  as_hash, as_string, store_list, store_set, store_zset, store_hash, change, answer, delete,
  expire_slot, pop, pop_last, before_last, increment, increment_in, incremented, field, rank,
  unrank, put_fields,
}

pub data Kind : Type 0 where
  strings lists sets zsets hashes : Kind

-- The type of the data that the code keeps under a key. The details of a worker are a string, and the
-- pending dependencies a set, where the comments of keys.rs call both a Hash.
abbrev pub kind : Family → Kind
kind Family.queue = Kind.lists
kind Family.priority_queue = Kind.zsets
kind Family.cron_queue = Kind.zsets
kind Family.active = Kind.lists
kind Family.delayed = Kind.zsets
kind Family.retry = Kind.zsets
kind Family.dead = Kind.lists
kind Family.dedup = Kind.sets
kind Family.task = Kind.hashes
kind Family.meta_queues = Kind.sets
kind Family.meta_workers = Kind.sets
kind Family.meta_worker = Kind.strings
kind Family.meta_heartbeat = Kind.strings
kind Family.pause = Kind.strings
kind Family.stats = Kind.hashes
kind Family.pending_deps = Kind.sets
kind Family.task_deps = Kind.sets
kind Family.progress = Kind.hashes
kind Family.group = Kind.zsets
kind Family.meta_group = Kind.hashes

module _ {B : Type 0} where
  abbrev pub entry_kind : Entry B → Kind
  entry_kind (string _) = Kind.strings
  entry_kind (list _) = Kind.lists
  entry_kind (set _) = Kind.sets
  entry_kind (zset _) = Kind.zsets
  entry_kind (hash _) = Kind.hashes

  abbrev pub HasKind : Kind → Option (Entry B × Option ℕ) → Type 0
  HasKind k none = Unit
  HasKind k (some (e, _)) = entry_kind e ≡ k

  -- Every key holds data of the type of its family, or nothing.
  abbrev pub IsTyped : Keyspace B → Type 0
  IsTyped ks = (k : Key) → HasKind (kind k.family) (ks k)

  -- A command for data of the type of its key. DEL, EXISTS and EXPIRE suit every type.
  abbrev pub Proper : Command B → Type 0
  Proper (set_value k _) = kind k.family ≡ Kind.strings
  Proper (get_value k) = kind k.family ≡ Kind.strings
  Proper (del_keys _) = Unit
  Proper (exists_key _) = Unit
  Proper (expire_key _ _) = Unit
  Proper (push_right k _) = kind k.family ≡ Kind.lists
  Proper (push_left k _) = kind k.family ≡ Kind.lists
  Proper (pop_left k _) = kind k.family ≡ Kind.lists
  Proper (list_length k) = kind k.family ≡ Kind.lists
  Proper (list_range k _ _) = kind k.family ≡ Kind.lists
  Proper (list_remove_first k _) = kind k.family ≡ Kind.lists
  Proper (zset_add k _ _) = kind k.family ≡ Kind.zsets
  Proper (zset_range k _ _) = kind k.family ≡ Kind.zsets
  Proper (zset_range_by_score k _ _ _) = kind k.family ≡ Kind.zsets
  Proper (zset_remove k _) = kind k.family ≡ Kind.zsets
  Proper (set_add k _) = kind k.family ≡ Kind.sets
  Proper (set_is_member k _) = kind k.family ≡ Kind.sets
  Proper (set_remove k _) = kind k.family ≡ Kind.sets
  Proper (set_members k) = kind k.family ≡ Kind.sets
  Proper (set_size k) = kind k.family ≡ Kind.sets
  Proper (hash_set k _) = kind k.family ≡ Kind.hashes
  Proper (hash_get k _) = kind k.family ≡ Kind.hashes
  Proper (hash_increment k _ _) = kind k.family ≡ Kind.hashes
  Proper (pop_right k _) = kind k.family ≡ Kind.lists
  Proper (zset_size k) = kind k.family ≡ Kind.zsets
  Proper (zset_range_scores k _ _) = kind k.family ≡ Kind.zsets
  Proper (hash_get_all k) = kind k.family ≡ Kind.hashes
  Proper (time_left _) = Unit
  Proper ping_server = Unit

module _ {B : Type 0} where
  pub put-IsTyped :
      (ks : Keyspace B) (k : Key) (slot : Option (Entry B × Option ℕ))
      → HasKind (kind k.family) slot
      → IsTyped ks
      → IsTyped (put ks k slot)
  put-IsTyped ks k slot h t j = elim (Bool-cases (key_eq k j)) [
    | inl e ↦ rw e (subst (λ (i : Key). HasKind (kind i.family) slot) (key_eq-true k j e) h)
    | inr e ↦ rw e (t j)
  ]

  store_list-IsTyped :
      (ks : Keyspace B) (k : Key) (l : List String)
      → kind k.family ≡ Kind.lists
      → IsTyped ks
      → IsTyped (store_list ks k l)
  store_list-IsTyped ks k [] h t = put-IsTyped ks k none tt t
  store_list-IsTyped ks k (x ∷ l) h t = put-IsTyped ks k _ (sym h) t

  store_set-IsTyped :
      (ks : Keyspace B) (k : Key) (l : List String)
      → kind k.family ≡ Kind.sets
      → IsTyped ks
      → IsTyped (store_set ks k l)
  store_set-IsTyped ks k [] h t = put-IsTyped ks k none tt t
  store_set-IsTyped ks k (x ∷ l) h t = put-IsTyped ks k _ (sym h) t

  store_zset-IsTyped :
      (ks : Keyspace B) (k : Key) (l : List (String × ℤ))
      → kind k.family ≡ Kind.zsets
      → IsTyped ks
      → IsTyped (store_zset ks k l)
  store_zset-IsTyped ks k [] h t = put-IsTyped ks k none tt t
  store_zset-IsTyped ks k (x ∷ l) h t = put-IsTyped ks k _ (sym h) t

  store_hash-IsTyped :
      (ks : Keyspace B) (k : Key) (l : List (String × Value B))
      → kind k.family ≡ Kind.hashes
      → IsTyped ks
      → IsTyped (store_hash ks k l)
  store_hash-IsTyped ks k [] h t = put-IsTyped ks k none tt t
  store_hash-IsTyped ks k (x ∷ l) h t = put-IsTyped ks k _ (sym h) t

  change-IsTyped :
      {R X : Type 0} (o : Option X) (f : X → R × Keyspace B) (ks : Keyspace B)
      → ((x : X) → IsTyped (f x).1)
      → IsTyped ks
      → IsTyped (change o f ks).1
  change-IsTyped none f ks h t = t
  change-IsTyped (some x) f ks h t = h x

  answer-IsTyped :
      {R X : Type 0} (o : Option X) (f : X → R) (ks : Keyspace B)
      → IsTyped ks
      → IsTyped (answer o f ks).1
  answer-IsTyped none f ks t = t
  answer-IsTyped (some x) f ks t = t

  delete-IsTyped : (l : List Key) (ks : Keyspace B) → IsTyped ks → IsTyped (delete l ks).1
  delete-IsTyped [] ks t = t
  delete-IsTyped (k ∷ l) ks t = delete-IsTyped l (erase ks k) (put-IsTyped ks k none tt t)

  expire-IsTyped :
      (ks : Keyspace B) (k : Key) (n : ℕ) (slot : Option (Entry B × Option ℕ))
      → HasKind (kind k.family) slot
      → IsTyped ks
      → IsTyped (expire_slot ks k n slot).1
  expire-IsTyped ks k n none h t = t
  expire-IsTyped ks k zero (some (e, _)) h t = put-IsTyped ks k none tt t
  expire-IsTyped ks k (suc n) (some (e, _)) h t = put-IsTyped ks k _ h t

  pop-IsTyped :
      (ks : Keyspace B) (k : Key) (l : List String)
      → kind k.family ≡ Kind.lists
      → IsTyped ks
      → IsTyped (pop ks k l).1
  pop-IsTyped ks k [] h t = t
  pop-IsTyped ks k (x ∷ l) h t = store_list-IsTyped ks k l h t

  pop_last-IsTyped :
      (ks : Keyspace B) (k : Key) (l : List String)
      → kind k.family ≡ Kind.lists
      → IsTyped ks
      → IsTyped (pop_last ks k l).1
  pop_last-IsTyped ks k [] h t = t
  pop_last-IsTyped ks k (x ∷ l) h t = store_list-IsTyped ks k (before_last x l) h t

  increment-IsTyped :
      (ks : Keyspace B) (k : Key) (f : String) (h : List (String × Value B)) (o : Option ℕ)
      → kind k.family ≡ Kind.hashes
      → IsTyped ks
      → IsTyped (increment ks k f h o).1
  increment-IsTyped ks k f h none e t = t
  increment-IsTyped ks k f h (some n) e t = store_hash-IsTyped ks k _ e t

  increment_in-IsTyped :
      (ks : Keyspace B) (k : Key) (f : String) (n : ℕ) (o : Option (List (String × Value B)))
      → kind k.family ≡ Kind.hashes
      → IsTyped ks
      → IsTyped (increment_in ks k f n o).1
  increment_in-IsTyped ks k f n none e t = t
  increment_in-IsTyped ks k f n (some h) e t =
      increment-IsTyped ks k f h (incremented (field f h) n) e t

module _ {B : Type 0} (order : List String → List String) where
  -- A proper command keeps the types of all keys.
  pub effect-IsTyped :
      (c : Command B) (ks : Keyspace B) → Proper c → IsTyped ks → IsTyped (effect order c ks).1
  unfolding effect
  effect-IsTyped (set_value k v) ks p t = put-IsTyped ks k _ (sym p) t
  effect-IsTyped (get_value k) ks p t = answer-IsTyped (as_string (ks k)) _ ks t
  effect-IsTyped (del_keys l) ks p t = delete-IsTyped l ks t
  effect-IsTyped (exists_key k) ks p t = t
  effect-IsTyped (expire_key k n) ks p t = expire-IsTyped ks k n (ks k) (t k) t
  effect-IsTyped (push_right k x) ks p t =
      change-IsTyped (as_list (ks k)) _ ks (λ l. store_list-IsTyped ks k (l ++ x ∷ []) p t) t
  effect-IsTyped (push_left k x) ks p t =
      change-IsTyped (as_list (ks k)) _ ks (λ l. store_list-IsTyped ks k (x ∷ l) p t) t
  effect-IsTyped (pop_left k _) ks p t =
      change-IsTyped (as_list (ks k)) _ ks (λ l. pop-IsTyped ks k l p t) t
  effect-IsTyped (list_length k) ks p t = answer-IsTyped (as_list (ks k)) _ ks t
  effect-IsTyped (list_range k _ _) ks p t = answer-IsTyped (as_list (ks k)) _ ks t
  effect-IsTyped (list_remove_first k x) ks p t =
      change-IsTyped (as_list (ks k)) _ ks (λ l. store_list-IsTyped ks k (remove_first x l) p t) t
  effect-IsTyped (zset_add k m s) ks p t =
      change-IsTyped (as_zset (ks k)) _ ks
        (λ l. store_zset-IsTyped ks k (rank m s (unrank m l)) p t) t
  effect-IsTyped (zset_range k _ _) ks p t = answer-IsTyped (as_zset (ks k)) _ ks t
  effect-IsTyped (zset_range_by_score k _ _ _) ks p t = answer-IsTyped (as_zset (ks k)) _ ks t
  effect-IsTyped (zset_remove k m) ks p t =
      change-IsTyped (as_zset (ks k)) _ ks (λ l. store_zset-IsTyped ks k (unrank m l) p t) t
  effect-IsTyped (set_add k m) ks p t =
      change-IsTyped (as_set (ks k)) _ ks
        (λ l. store_set-IsTyped ks k (if contains l m then l else l ++ m ∷ []) p t) t
  effect-IsTyped (set_is_member k m) ks p t = answer-IsTyped (as_set (ks k)) _ ks t
  effect-IsTyped (set_remove k m) ks p t =
      change-IsTyped (as_set (ks k)) _ ks (λ l. store_set-IsTyped ks k (remove_first m l) p t) t
  effect-IsTyped (set_members k) ks p t = answer-IsTyped (as_set (ks k)) _ ks t
  effect-IsTyped (set_size k) ks p t = answer-IsTyped (as_set (ks k)) _ ks t
  effect-IsTyped (hash_set k fields) ks p t =
      change-IsTyped (as_hash (ks k)) _ ks (λ l. store_hash-IsTyped ks k (put_fields fields l) p t)
        t
  effect-IsTyped (hash_get k f) ks p t = answer-IsTyped (as_hash (ks k)) _ ks t
  effect-IsTyped (hash_increment k f n) ks p t = increment_in-IsTyped ks k f n (as_hash (ks k)) p t
  effect-IsTyped (pop_right k _) ks p t =
      change-IsTyped (as_list (ks k)) _ ks (λ l. pop_last-IsTyped ks k l p t) t
  effect-IsTyped (zset_size k) ks p t = answer-IsTyped (as_zset (ks k)) _ ks t
  effect-IsTyped (zset_range_scores k _ _) ks p t = answer-IsTyped (as_zset (ks k)) _ ks t
  effect-IsTyped (hash_get_all k) ks p t = answer-IsTyped (as_hash (ks k)) _ ks t
  effect-IsTyped (time_left k) ks p t = t
  effect-IsTyped ping_server ks p t = t

-- ===== src/Redis/Keyspace.antt =====
-- What a client can observe of the server's data, and the documented effect of the commands on it.
use Prim.Native.Nat.{Ordering}
use Prim.Native.String.{compare}
use rediq.Prelude.{
  ℕ, zero, suc, ◌+◌, ◌-◌, ℤ, pos, negsuc, ltb_ℤ, leb_ℤ, ltb, ◌^◌, String, str_eq, Bool, true, false,
  not, ◌&&◌, ◌||◌, Option, none, some, List, [], ◌∷◌, ◌++◌, length, take, contains, remove_first,
  if◌then◌else◌,
}
use rediq.Errors.{Result, ok, err, redis, wrong_type, unknown_reply}
use rediq.Keys.{Key, key_eq}
use rediq.Redis.{
  Value, Command, Reply, set_value, get_value, del_keys, exists_key, expire_key, push_right,
  push_left, pop_left, list_length, list_range, list_remove_first, zset_add, zset_range,
  zset_range_by_score, zset_remove, set_add, set_is_member, set_remove, set_members, set_size,
  hash_set, hash_get, hash_increment, pop_right, zset_size, zset_range_scores, hash_get_all,
  time_left, ping_server, text, number, bytes,
}

pub data Entry (B : Type 0) : Type 0 where
  string : Value B → Entry B
  list set : List String → Entry B
  zset : List (String × ℤ) → Entry B
  hash : List (String × Value B) → Entry B

-- Each key holds an entry and the seconds that it has left, if it expires.
abbrev pub Keyspace : Type 0 → Type 0
Keyspace B = Key → Option (Entry B × Option ℕ)

module _ {B : Type 0} where
  abbrev pub expiry : Option (Entry B × Option ℕ) → Option ℕ
  expiry none = none
  expiry (some (e, t)) = t

  abbrev pub put : Keyspace B → Key → Option (Entry B × Option ℕ) → Keyspace B
  put ks k slot j = if key_eq k j then slot else ks j

  -- A write keeps the expiry of the key, but for SET.
  abbrev pub store : Keyspace B → Key → Entry B → Keyspace B
  store ks k e = put ks k (some (e, expiry (ks k)))

  abbrev pub erase : Keyspace B → Key → Keyspace B
  erase ks k = put ks k none

  abbrev pub renew : Keyspace B → Key → Entry B → Option ℕ → Keyspace B
  renew ks k e t = put ks k (some (e, t))

  -- What a command for one type reads: nothing stored reads as empty, another type is an error.
  abbrev pub as_list : Option (Entry B × Option ℕ) → Option (List String)
  as_list none = some []
  as_list (some (list l, _)) = some l
  as_list (some _) = none

  abbrev pub as_set : Option (Entry B × Option ℕ) → Option (List String)
  as_set none = some []
  as_set (some (set l, _)) = some l
  as_set (some _) = none

  abbrev pub as_zset : Option (Entry B × Option ℕ) → Option (List (String × ℤ))
  as_zset none = some []
  as_zset (some (zset l, _)) = some l
  as_zset (some _) = none

  abbrev pub as_hash : Option (Entry B × Option ℕ) → Option (List (String × Value B))
  as_hash none = some []
  as_hash (some (hash l, _)) = some l
  as_hash (some _) = none

  abbrev pub as_string : Option (Entry B × Option ℕ) → Option (Option (Value B))
  as_string none = some none
  as_string (some (string v, _)) = some (some v)
  as_string (some _) = none

  -- An empty collection is not stored.
  abbrev pub list_slot : Option ℕ → List String → Option (Entry B × Option ℕ)
  list_slot t [] = none
  list_slot t (x ∷ xs) = some (list (x ∷ xs), t)

  abbrev pub store_list : Keyspace B → Key → List String → Keyspace B
  store_list ks k l = put ks k (list_slot (expiry (ks k)) l)

  abbrev pub set_slot : Option ℕ → List String → Option (Entry B × Option ℕ)
  set_slot t [] = none
  set_slot t (x ∷ xs) = some (set (x ∷ xs), t)

  abbrev pub store_set : Keyspace B → Key → List String → Keyspace B
  store_set ks k l = put ks k (set_slot (expiry (ks k)) l)

  abbrev pub zset_slot : Option ℕ → List (String × ℤ) → Option (Entry B × Option ℕ)
  zset_slot t [] = none
  zset_slot t (x ∷ xs) = some (zset (x ∷ xs), t)

  abbrev pub store_zset : Keyspace B → Key → List (String × ℤ) → Keyspace B
  store_zset ks k l = put ks k (zset_slot (expiry (ks k)) l)

  abbrev pub hash_slot : Option ℕ → List (String × Value B) → Option (Entry B × Option ℕ)
  hash_slot t [] = none
  hash_slot t (x ∷ xs) = some (hash (x ∷ xs), t)

  abbrev pub store_hash : Keyspace B → Key → List (String × Value B) → Keyspace B
  store_hash ks k l = put ks k (hash_slot (expiry (ks k)) l)

  abbrev pub field : String → List (String × Value B) → Option (Value B)
  field f [] = none
  field f ((g, v) ∷ l) = if str_eq g f then some v else field f l

  abbrev pub put_field : String → Value B → List (String × Value B) → List (String × Value B)
  put_field f v [] = (f, v) ∷ []
  put_field f v ((g, w) ∷ l) = if str_eq g f then (g, v) ∷ l else (g, w) ∷ put_field f v l

  abbrev pub put_fields :
      List (String × Value B) → List (String × Value B) → List (String × Value B)
  put_fields [] l = l
  put_fields ((f, v) ∷ r) l = put_fields r (put_field f v l)

  -- HSET counts the fields that were not there.
  abbrev pub new_fields : List (String × Value B) → List (String × Value B) → ℕ
  new_fields [] l = 0
  new_fields ((f, v) ∷ r) l =
      elim (field f l) [ none ↦ 1 | some _ ↦ 0 ] + new_fields r (put_field f v l)

-- Sorted sets are kept by score, and by member where scores are equal.
abbrev pub precedes : String × ℤ → String × ℤ → Bool
precedes (m, s) (n, t) =
    ltb_ℤ s t || (leb_ℤ s t && elim (compare m n) [ Ordering.lt ↦ true | _ ↦ false ])

unfoldable pub rank : String → ℤ → List (String × ℤ) → List (String × ℤ)
rank m s [] = (m, s) ∷ []
rank m s ((n, t) ∷ l) = if precedes (m, s) (n, t) then (m, s) ∷ (n, t) ∷ l else (n, t) ∷ rank m s l

unfoldable pub unrank : String → List (String × ℤ) → List (String × ℤ)
unrank m [] = []
unrank m ((n, t) ∷ l) = if str_eq n m then l else (n, t) ∷ unrank m l

abbrev pub ranked : String → List (String × ℤ) → Bool
ranked m [] = false
ranked m ((n, t) ∷ l) = str_eq n m || ranked m l

abbrev pub names : List (String × ℤ) → List String
names [] = []
names ((m, s) ∷ l) = m ∷ names l

-- The members with a score from `low` (none: no bound) to `high`, in order.
abbrev pub scored : Option ℤ → ℤ → List (String × ℤ) → List String
scored low high [] = []
scored low high ((m, s) ∷ l) =
    if leb_ℤ s high && elim low [ none ↦ true | some a ↦ leb_ℤ a s ]
    then m ∷ scored low high l
    else scored low high l

abbrev pub limited : Option ℕ → List String → List String
limited none l = l
limited (some n) l = take n l

abbrev pub drop : ℕ → List String → List String
drop zero l = l
drop (suc n) [] = []
drop (suc n) (x ∷ l) = drop n l

-- The items from `start` to `stop`, both included; a negative `stop` counts from the end.
abbrev pub slice : ℕ → ℤ → List String → List String
slice start (pos stop) l = take (stop + 1 - start) (drop start l)
slice start (negsuc back) l = take (length l - back - start) (drop start l)

-- The same of any list.
abbrev pub drop_from : {A : Type 0} → ℕ → List A → List A
drop_from zero l = l
drop_from (suc n) [] = []
drop_from (suc n) (x ∷ l) = drop_from n l

abbrev pub score_slice : ℕ → ℤ → List (String × ℤ) → List (String × ℤ)
score_slice start (pos stop) l = take (stop + 1 - start) (drop_from start l)
score_slice start (negsuc back) l = take (length l - back - start) (drop_from start l)

-- The last item, and the items before it.
abbrev pub last_of : String → List String → String
last_of x [] = x
last_of x (y ∷ l) = last_of y l

abbrev pub before_last : String → List String → List String
before_last x [] = []
before_last x (y ∷ l) = x ∷ before_last y l

abbrev pub one_if : Bool → ℕ
one_if true = 1
one_if false = 0

module _ {B : Type 0} where
  abbrev pub answer : {R X : Type 0} → Option X → (X → R) → Keyspace B → Result R × Keyspace B
  answer none f ks = (err (redis wrong_type), ks)
  answer (some x) f ks = (ok (f x), ks)

  abbrev pub change :
      {R X : Type 0} → Option X → (X → R × Keyspace B) → Keyspace B → Result R × Keyspace B
  change none f ks = (err (redis wrong_type), ks)
  change (some x) f ks = let (r, ks') = f x in (ok r, ks')

  -- DEL counts the keys that were there.
  abbrev pub delete : List Key → Keyspace B → ℕ × Keyspace B
  delete [] ks = (0, ks)
  delete (k ∷ r) ks =
      let (n, ks') = delete r (erase ks k) in (elim (ks k) [ none ↦ n | some _ ↦ suc n ], ks')

  abbrev pub expire_slot : Keyspace B → Key → ℕ → Option (Entry B × Option ℕ) → Bool × Keyspace B
  expire_slot ks k seconds none = (false, ks)
  expire_slot ks k zero (some (e, _)) = (true, erase ks k)
  expire_slot ks k (suc n) (some (e, _)) = (true, renew ks k e (some (suc n)))

  abbrev pub pop : Keyspace B → Key → List String → Option String × Keyspace B
  pop ks k [] = (none, ks)
  pop ks k (x ∷ l) = (some x, store_list ks k l)

  abbrev pub pop_last : Keyspace B → Key → List String → Option String × Keyspace B
  pop_last ks k [] = (none, ks)
  pop_last ks k (x ∷ l) = (some (last_of x l), store_list ks k (before_last x l))

  -- TTL: -2 of a missing key, -1 of one that does not expire.
  abbrev pub seconds_left : Option (Entry B × Option ℕ) → ℤ
  seconds_left none = negsuc 1
  seconds_left (some (e, none)) = negsuc 0
  seconds_left (some (e, some n)) = pos n

  abbrev pub present : Option (Entry B × Option ℕ) → Bool
  present none = false
  present (some _) = true

  -- HINCRBY on a field that is missing, or holds a number, within 64 bits.
  abbrev pub incremented : Option (Value B) → ℕ → Option ℕ
  incremented none n = if ltb n (2 ^ 63) then some n else none
  incremented (some (number m)) n = if ltb (m + n) (2 ^ 63) then some (m + n) else none
  incremented (some (text _)) n = none
  incremented (some (bytes _)) n = none

  abbrev pub increment :
      Keyspace B → Key → String → List (String × Value B) → Option ℕ → Result ℕ × Keyspace B
  increment ks k f h none = (err (redis (unknown_reply "ERR hash value is not an integer")), ks)
  increment ks k f h (some n) = (ok n, store_hash ks k (put_field f (number n) h))

  abbrev pub increment_in :
      Keyspace B → Key → String → ℕ → Option (List (String × Value B)) → Result ℕ × Keyspace B
  increment_in ks k f n none = (err (redis wrong_type), ks)
  increment_in ks k f n (some h) = increment ks k f h (incremented (field f h) n)

-- The documented effect of one command. Redis does not promise an order of SMEMBERS: `order` is it.
-- HGETALL gives the fields in the order in which they came first, as Redis keeps a small hash.
module _ {B : Type 0} (order : List String → List String) where
  unfoldable pub effect : (c : Command B) → Keyspace B → Result (Reply c) × Keyspace B
  effect (set_value k v) ks = (ok tt, renew ks k (string v) none)
  effect (get_value k) ks = answer (as_string (ks k)) (λ v. v) ks
  effect (del_keys l) ks = let (n, ks') = delete l ks in (ok n, ks')
  effect (exists_key k) ks = (ok (present (ks k)), ks)
  effect (expire_key k n) ks = let (b, ks') = expire_slot ks k n (ks k) in (ok b, ks')
  effect (push_right k x) ks =
      change (as_list (ks k)) (λ l. (suc (length l), store_list ks k (l ++ x ∷ []))) ks
  effect (push_left k x) ks =
      change (as_list (ks k)) (λ l. (suc (length l), store_list ks k (x ∷ l))) ks
  effect (pop_left k _) ks = change (as_list (ks k)) (pop ks k) ks
  effect (list_length k) ks = answer (as_list (ks k)) length ks
  effect (list_range k start stop) ks = answer (as_list (ks k)) (slice start stop) ks
  effect (list_remove_first k x) ks =
      change (as_list (ks k)) (λ l. (one_if (contains l x), store_list ks k (remove_first x l))) ks
  effect (zset_add k m s) ks =
      change (as_zset (ks k)) (λ l. (tt, store_zset ks k (rank m s (unrank m l)))) ks
  effect (zset_range k start stop) ks = answer (as_zset (ks k)) (λ l. slice start stop (names l)) ks
  effect (zset_range_by_score k low high limit) ks =
      answer (as_zset (ks k)) (λ l. limited limit (scored low high l)) ks
  effect (zset_remove k m) ks =
      change (as_zset (ks k)) (λ l. (one_if (ranked m l), store_zset ks k (unrank m l))) ks
  effect (set_add k m) ks =
      change (as_set (ks k))
        (λ l.
          (one_if (not (contains l m)), store_set ks k (if contains l m then l else l ++ m ∷ [])))
        ks
  effect (set_is_member k m) ks = answer (as_set (ks k)) (λ l. contains l m) ks
  effect (set_remove k m) ks =
      change (as_set (ks k)) (λ l. (one_if (contains l m), store_set ks k (remove_first m l))) ks
  effect (set_members k) ks = answer (as_set (ks k)) order ks
  effect (set_size k) ks = answer (as_set (ks k)) length ks
  effect (hash_set k fields) ks =
      change (as_hash (ks k)) (λ h. (new_fields fields h, store_hash ks k (put_fields fields h))) ks
  effect (hash_get k f) ks = answer (as_hash (ks k)) (field f) ks
  effect (hash_increment k f n) ks = increment_in ks k f n (as_hash (ks k))
  effect (pop_right k _) ks = change (as_list (ks k)) (pop_last ks k) ks
  effect (zset_size k) ks = answer (as_zset (ks k)) length ks
  effect (zset_range_scores k start stop) ks = answer (as_zset (ks k)) (score_slice start stop) ks
  effect (hash_get_all k) ks = answer (as_hash (ks k)) (λ h. h) ks
  effect (time_left k) ks = (ok (some (seconds_left (ks k))), ks)
  effect ping_server ks = (ok "PONG", ks)

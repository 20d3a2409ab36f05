-- ===== src/System/Fifo/Holding.antt =====
-- What the server holds for a queue of tasks (the data of rediq/src/client/builder.rs and
-- rediq/src/server/worker.rs), and that a read of it survives the writes of both.
use rediq.Prelude.{
  ℕ, String, str_eq, true, false, ◌≡◌, refl, ap, ◌∙◌, Option, none, some, List, [], ◌∷◌, ◌++◌,
  contains, eq_iff, Bool-cases, inl, inr,
}
use rediq.Errors.{ok}
use rediq.Keys.{Family, key}
use rediq.Redis.{Value, bytes}
use rediq.Redis.Keyspace.{
  Keyspace, present, as_list, as_set, as_hash, field, put_field, put_fields, hash_slot,
}
use rediq.Redis.Hashes.{hash_slot-put_fields, field-put_field}
use rediq.Task.{Task}
use rediq.Codec.{Codec}

abbrev pub ids : List Task → List String
ids [] = []
ids (t ∷ ts) = t.id ∷ ids ts

pub ids-append : (q r : List Task) → ids (q ++ r) ≡ ids q ++ ids r
ids-append [] r = refl
ids-append (t ∷ q) r = ap (λ l. t.id ∷ l) (ids-append q r)

-- A used identifier is not an unused one.
pub used-ne-unused :
    (used : List String) (a b : String)
    → contains used a ≡ false
    → contains used b ≡ true
    → str_eq a b ≡ false
used-ne-unused used a b n u = elim (Bool-cases (str_eq a b)) [
  | inl y ↦ cc (n, u, ap (contains used) ((eq_iff a b).0 y))
  | inr d ↦ d
]

module _ {B : Type 0} where
  abbrev pub data_in : Option (List (String × Value B)) → Option (Value B)
  data_in none = none
  data_in (some h) = field "data" h

  -- The bytes of a task as HGET reads them.
  abbrev pub data_of : Keyspace B → String → Option (Value B)
  data_of ks id = data_in (as_hash (ks (key Family.task id)))

  -- The details unpack to the task.
  abbrev pub HoldsTask : Codec B → Keyspace B → Task → Type 0
  HoldsTask codec ks t = (b : B) × (data_of ks t.id ≡ some (bytes b)) × (codec.from_slice b ≡ ok t)

  abbrev pub HoldsTasks : Codec B → Keyspace B → List String → List Task → Type 0
  HoldsTasks codec ks used [] = Unit
  HoldsTasks codec ks used (t ∷ ts) =
      (contains used t.id ≡ true) × HoldsTask codec ks t × HoldsTasks codec ks used ts

  -- A queue that is not paused, with the waiting tasks in order; nothing is stored under an unused
  -- identifier.
  pub record Holds (codec : Codec B) (queue : String) (ks : Keyspace B) (used : List String)
      (q : List Task) : Type 0 where
    pub unpaused : present (ks (key Family.pause queue)) ≡ false
    pub queues : List String
    pub registered : as_set (ks (key Family.meta_queues "")) ≡ some queues
    pub waiting : as_list (ks (key Family.queue queue)) ≡ some (ids q)
    pub actives : List String
    pub active : as_list (ks (key Family.active queue)) ≡ some actives
    pub unused : (id : String) → contains used id ≡ false → ks (key Family.task id) ≡ none
    pub tasks : HoldsTasks codec ks used q

  field-put_status :
      (v : Value B) (h : List (String × Value B))
      → field "data" (put_field "status" v h) ≡ field "data" h
  field-put_status v h = field-put_field "data" "status" v h refl

  -- The status of a task is written beside its bytes.
  pub data_in-status :
      (t : Option ℕ) (v : Value B) (h : List (String × Value B))
      → data_in (as_hash (hash_slot t (put_fields (("status", v) ∷ []) h))) ≡ field "data" h
  data_in-status t v h = rw (hash_slot-put_fields t "status" v [] h) (field-put_status v h)

  -- A hash with readable bytes is there.
  pub details_of_data :
      (o : Option (List (String × Value B))) (v : Value B)
      → data_in o ≡ some v
      → (h : List (String × Value B)) × (o ≡ some h) × (field "data" h ≡ some v)
  details_of_data none v e = cc
  details_of_data (some h) v e = (h, refl, e)

  -- What keeps the bytes of the used identifiers keeps the tasks, with more identifiers in use.
  pub HoldsTasks-kept :
      (codec : Codec B) (ks ks' : Keyspace B) (used more : List String) (q : List Task)
      → ((id : String) → contains used id ≡ true → data_of ks' id ≡ data_of ks id)
      → ((id : String) → contains used id ≡ true → contains more id ≡ true)
      → HoldsTasks codec ks used q
      → HoldsTasks codec ks' more q
  HoldsTasks-kept codec ks ks' used more [] same grows h = tt
  HoldsTasks-kept codec ks ks' used more (t ∷ q) same grows (u, (b, d, e), r) =
      (grows t.id u, (b, same t.id u ∙ d, e), HoldsTasks-kept codec ks ks' used more q same grows r)

  pub HoldsTasks-append :
      (codec : Codec B) (ks : Keyspace B) (used : List String) (q : List Task) (t : Task)
      → HoldsTasks codec ks used q
      → contains used t.id ≡ true
      → HoldsTask codec ks t
      → HoldsTasks codec ks used (q ++ t ∷ [])
  HoldsTasks-append codec ks used [] t h u d = (u, d, tt)
  HoldsTasks-append codec ks used (x ∷ q) t (a, b, r) u d =
      (a, b, HoldsTasks-append codec ks used q t r u d)

-- ===== src/Redis/Hashes.antt =====
-- Written fields leave a hash that is stored: what HSET leaves of the details of a task and its progress.
use rediq.Prelude.{
  ℕ, String, str_eq, eq_iff, false, ◌≡◌, refl, ap, ◌∙◌, arith, Option, some, List, [], ◌∷◌,
  Bool-cases, inl, inr, if◌then◌else◌,
}
use rediq.Redis.{Value}
use rediq.Redis.Keyspace.{hash, field, put_field, put_fields, hash_slot}

module _ {B : Type 0} where
  put_field-slot :
      (t : Option ℕ) (f : String) (v : Value B) (l : List (String × Value B))
      → hash_slot t (put_field f v l) ≡ some (hash (put_field f v l), t)
  put_field-slot t f v [] = refl
  put_field-slot t f v ((g, w) ∷ l) = ground arith

  -- Written fields leave a hash that is not empty.
  pub hash_slot-put_fields :
      (t : Option ℕ) (f : String) (v : Value B) (r l : List (String × Value B))
      → hash_slot t (put_fields ((f, v) ∷ r) l) ≡ some (hash (put_fields ((f, v) ∷ r) l), t)
  hash_slot-put_fields t f v [] l = put_field-slot t f v l
  hash_slot-put_fields t f v ((g, w) ∷ r) l = hash_slot-put_fields t g w r (put_field f v l)

  -- Writing a field leaves the others.
  pub field-put_field :
      (f g : String) (v : Value B) (l : List (String × Value B))
      → str_eq g f ≡ false
      → field f (put_field g v l) ≡ field f l
  field-put_field f g v [] h = rw h refl
  field-put_field f g v ((k, w) ∷ l) h = elim (Bool-cases (str_eq k g)) [
    | inl y ↦
        let other : str_eq k f ≡ false = ap (λ z. str_eq z f) ((eq_iff k g).0 y) ∙ h in
        rw y (rw other refl)
    | inr n ↦ rw n (ap (λ o. if str_eq k f then some w else o) (field-put_field f g v l h))
  ]

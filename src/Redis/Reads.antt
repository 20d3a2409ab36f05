-- ===== src/Redis/Reads.antt =====
-- What a key reads as after a write.
use rediq.Prelude.{
  Bool-cases, inl, inr, sym, ap, ◌∙◌, ℕ, ℤ, String, ◌≡◌, refl, arith, Option, some, List, [], ◌∷◌,
}
use mathlib.Core.Path.{fun_ext}
use rediq.Keys.Names.{key_eq-true}
use rediq.Keys.{Key, key_eq}
use rediq.Redis.Keyspace.{
  Entry, Keyspace, put, as_list, as_zset, list_slot, zset_slot, as_set, set_slot,
}

module _ (B : Type 0) where
  pub as_list-list_slot :
      (t : Option ℕ) (l : List String) → as_list (list_slot {B = B} t l) ≡ some l
  as_list-list_slot t [] = refl
  as_list-list_slot t (x ∷ l) = refl

  pub as_zset-zset_slot :
      (t : Option ℕ) (l : List (String × ℤ)) → as_zset (zset_slot {B = B} t l) ≡ some l
  as_zset-zset_slot t [] = refl
  as_zset-zset_slot t (x ∷ l) = refl

  pub as_set-set_slot : (t : Option ℕ) (l : List String) → as_set (set_slot {B = B} t l) ≡ some l
  as_set-set_slot t [] = refl
  as_set-set_slot t (x ∷ l) = refl

module _ {B : Type 0} where
  -- Of two writes of one key the second stays.
  pub put-put :
      (ks : Keyspace B) (k : Key) (a b : Option (Entry B × Option ℕ))
      → put (put ks k a) k b ≡ put ks k b
  put-put ks k a b = fun_ext λ j. ground arith

  -- Writing what is there changes nothing.
  pub put_same :
      (ks : Keyspace B) (k : Key) (a : Option (Entry B × Option ℕ)) → ks k ≡ a → put ks k a ≡ ks
  put_same ks k a e = fun_ext λ j. elim (Bool-cases (key_eq k j)) [
    | inl y ↦ rw y (sym e ∙ ap ks (key_eq-true k j y))
    | inr n ↦ rw n refl
  ]

-- ===== src/Janitor/Pages.antt =====
-- What `cleanup` does with one page of keys (rediq/src/server/janitor.rs): the keys that it collects,
-- and what is left behind their deletion.
use rediq.Prelude.{
  ℕ, suc, ◌+◌, ◌≤◌, leb, ltb_ℤ, ℤ, ◌≡◌, refl, ap, ◌∙◌, String, Bool, true, false, Option, none,
  some, List, [], ◌∷◌, length, snoc, arith, Bool-cases, inl, inr, ◌⊎◌, if◌then◌else◌,
}
use rediq.Errors.{Result, ok}
use rediq.Keys.{Key, key_eq}
use rediq.Keys.Names.{key_eq-true}
use rediq.Redis.Client.{lasting}
use rediq.Redis.Keyspace.{Entry, Keyspace, effect, seconds_left, delete, erase}
use rediq.Redis.Server.{replay, replay-then}
use rediq.Janitor.{
  JanitorConfig, chosen, collect, delete_collected, clean_page, matched, matched_keys,
}

abbrev pub is_below : ℤ → Option ℤ → Bool
is_below threshold none = false
is_below threshold (some left) = ltb_ℤ left threshold

length-snoc : (l : List String) (n : String) → length (snoc l n) ≡ suc (length l)
length-snoc [] n = refl
length-snoc (x ∷ l) n = ap suc (length-snoc l n)

module _ (cfg : JanitorConfig) where
  chosen-eq :
      (keys : List String) (n : String) (left : Option ℤ)
      → chosen cfg keys n (ok left)
        ≡ (if is_below cfg.ttl_threshold left then snoc keys n else keys)
  chosen-eq keys n none = refl
  chosen-eq keys n (some left) = refl

module _ {B : Type 0} (cfg : JanitorConfig) where
  -- The key expires, in less than the threshold.
  abbrev pub expiring : Option (Entry B × Option ℕ) → Bool
  expiring slot = is_below cfg.ttl_threshold (lasting (some (seconds_left slot)))

  -- The keys that a page gives, by the data alone.
  abbrev pub collected : Keyspace B → ℕ → List String → List String → List String
  collected ks deleted keys [] = keys
  collected ks deleted keys (n ∷ ns) =
      if leb cfg.batch_size (deleted + length keys)
      then keys
      else collected ks deleted (if expiring (ks (matched n)) then snoc keys n else keys) ns

  pub replay-collect :
      (order : List String → List String) (deleted : ℕ) (names keys : List String) (ks : Keyspace B)
      → replay order (collect cfg deleted keys names) ks
        ≡ (ok (collected ks deleted keys names), ks)
  unfolding replay collect effect
  replay-collect order deleted [] keys ks = refl
  replay-collect order deleted (n ∷ ns) keys ks =
      elim (Bool-cases (leb cfg.batch_size (deleted + length keys))) [
        | inl y ↦ rw y refl
        | inr f ↦ rw f (
            ap (λ l. replay order (collect cfg deleted l ns) ks)
              (chosen-eq cfg keys n (lasting (some (seconds_left (ks (matched n))))))
            ∙ replay-collect order deleted ns
                (if expiring (ks (matched n)) then snoc keys n else keys) ks)
      ]

  abbrev pub AllExpiring : Keyspace B → List String → Type 0
  AllExpiring ks [] = Unit
  AllExpiring ks (n ∷ ns) = (expiring (ks (matched n)) ≡ true) × AllExpiring ks ns

  snoc-AllExpiring :
      (ks : Keyspace B) (keys : List String) (n : String)
      → AllExpiring ks keys
      → expiring (ks (matched n)) ≡ true
      → AllExpiring ks (snoc keys n)
  snoc-AllExpiring ks [] n h e = (e, tt)
  snoc-AllExpiring ks (k ∷ keys) n h e = (h.0, snoc-AllExpiring ks keys n h.1 e)

  pub collected-AllExpiring :
      (ks : Keyspace B) (deleted : ℕ) (keys names : List String)
      → AllExpiring ks keys
      → AllExpiring ks (collected ks deleted keys names)
  collected-AllExpiring ks deleted keys [] h = h
  collected-AllExpiring ks deleted keys (n ∷ ns) h =
      elim (Bool-cases (leb cfg.batch_size (deleted + length keys))) [
        | inl y ↦ rw y h
        | inr f ↦ rw f (elim (Bool-cases (expiring (ks (matched n)))) [
          | inl e ↦
              rw e
                (collected-AllExpiring ks deleted (snoc keys n) ns (snoc-AllExpiring ks keys n h e))
          | inr e ↦ rw e (collected-AllExpiring ks deleted keys ns h)
        ])
      ]

  pub length-collected :
      (ks : Keyspace B) (deleted : ℕ) (keys names : List String)
      → deleted + length keys ≤ cfg.batch_size
      → deleted + length (collected ks deleted keys names) ≤ cfg.batch_size
  length-collected ks deleted keys [] h = h
  length-collected ks deleted keys (n ∷ ns) h =
      elim (Bool-cases (leb cfg.batch_size (deleted + length keys))) [
        | inl y ↦ rw y h
        | inr f ↦ rw f (elim (Bool-cases (expiring (ks (matched n)))) [
          | inl e ↦
              rw e (
                length-collected ks deleted (snoc keys n) ns
                  (ground (arith, f, length-snoc keys n)))
          | inr e ↦ rw e (length-collected ks deleted keys ns h)
        ])
      ]

-- DEL counts no more keys than it is given.
pub count-delete :
    {B : Type 0} (ns : List String) (ks : Keyspace B) → (delete (matched_keys ns) ks).0 ≤ length ns
count-delete [] ks = omega arith
count-delete (n ∷ ns) ks = ground (arith, count-delete ns (erase ks (matched n)))

module _ {B : Type 0} (cfg : JanitorConfig) where
  -- A key that does not expire in less than the threshold, or is none of a task whose identifier
  -- starts with a colon.
  abbrev pub IsSpared : Keyspace B → Key → Type 0
  IsSpared ks j =
      (expiring cfg (ks j) ≡ false) ⊎ ((rest : String) → key_eq (matched rest) j ≡ false)

  apart :
      (n : String) (ks : Keyspace B) (j : Key)
      → expiring cfg (ks (matched n)) ≡ true
      → IsSpared ks j
      → key_eq (matched n) j ≡ false
  apart n ks j h (inr f) = f n
  apart n ks j h (inl e) = elim (Bool-cases (key_eq (matched n) j)) [
    | inl y ↦ cc (h, e, ap (λ k. expiring cfg (ks k)) (key_eq-true (matched n) j y))
    | inr f ↦ f
  ]

  -- A spared key is none of those that are deleted.
  delete-spares :
      (ns : List String) (ks ks' : Keyspace B) (j : Key)
      → AllExpiring cfg ks ns
      → IsSpared ks j
      → (delete (matched_keys ns) ks').1 j ≡ ks' j
  delete-spares [] ks ks' j h e = refl
  delete-spares (n ∷ ns) ks ks' j h e =
      delete-spares ns ks (erase ks' (matched n)) j h.1 e ∙ rw (apart n ks j h.0 e) refl

  -- What is left behind a page: no more keys are counted than the batch has, and every spared key
  -- is as before.
  abbrev pub Cleaned : Keyspace B → Result ℕ × Keyspace B → Type 0
  Cleaned ks o =
      (d : ℕ) × (o.0 ≡ ok d) × (d ≤ cfg.batch_size) × ((j : Key) → IsSpared ks j → o.1 j ≡ ks j)

  deleting :
      (order : List String → List String) (deleted : ℕ) (ns : List String) (ks : Keyspace B)
      → deleted + length ns ≤ cfg.batch_size
      → AllExpiring cfg ks ns
      → Cleaned ks (replay order (delete_collected deleted ns) ks)
  unfolding replay delete_collected effect
  deleting order deleted [] ks h a = (deleted, refl, omega arith, λ j e. refl)
  deleting order deleted (n ∷ ns) ks h a = (
    deleted + (delete (matched_keys (n ∷ ns)) ks).0,
    refl,
    omega (arith, count-delete (n ∷ ns) ks),
    λ j e. delete-spares (n ∷ ns) ks ks j a e,
  )

  pub page-Cleaned :
      (order : List String → List String) (deleted : ℕ) (names : List String) (ks : Keyspace B)
      → deleted ≤ cfg.batch_size
      → Cleaned ks (replay order (clean_page cfg deleted names) ks)
  page-Cleaned order deleted names ks h =
      rw
        (replay-then order (collect cfg deleted [] names) (delete_collected deleted) ks ks
          (collected cfg ks deleted [] names) (replay-collect cfg order deleted names [] ks))
        (deleting order deleted (collected cfg ks deleted [] names) ks
          (length-collected cfg ks deleted [] names (omega arith))
          (collected-AllExpiring cfg ks deleted [] names tt))

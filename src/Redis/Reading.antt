-- ===== src/Redis/Reading.antt =====
-- Programs that change nothing, whatever the data are and whatever fails.
use rediq.Prelude.{ℕ, ℤ, String, ◌≡◌, refl, ap, ◌∙◌, List, arith, Option-cases, inl, inr}
use rediq.Errors.{Result, ok, err}
use rediq.Keys.{Key}
use rediq.Redis.{Prog, done, attempt, ◌>>=◌}
use rediq.Redis.Client.{get, llen, lrange, zrangebyscore, smembers, hget, hgetall}
use rediq.Redis.Keyspace.{Keyspace, effect, as_list, as_set, as_zset, as_hash}
use rediq.Redis.Server.{replay, replay-bind, replay-tried, continue}

module _ {B : Type 0} (order : List String → List String) where
  abbrev pub Reads : {A : Type 0} → Prog B A → Type 0
  Reads p = (ks : Keyspace B) → (replay order p ks).1 ≡ ks

  pub done-Reads : {A : Type 0} (r : Result A) → Reads (done r)
  unfolding replay
  done-Reads (ok a) ks = refl
  done-Reads (err e) ks = refl

  continue-Reads :
      {A C : Type 0} (f : A → Prog B C) (o : Result A × Keyspace B)
      → ((a : A) → Reads (f a))
      → (continue order f o).1 ≡ o.1
  unfolding replay
  continue-Reads f (ok a, ks) h = h a ks
  continue-Reads f (err e, ks) h = refl

  pub bind-Reads :
      {A C : Type 0} (p : Prog B A) (f : A → Prog B C)
      → Reads p
      → ((a : A) → Reads (f a))
      → Reads (p >>= f)
  bind-Reads {A} {C} p f h g ks =
      ap (λ (o : Result C × Keyspace B). o.1) (replay-bind order p f ks)
      ∙ continue-Reads f (replay order p ks) g
      ∙ h ks

  pub attempt-Reads :
      {A C : Type 0} (p : Prog B A) (f : Result A → Prog B C)
      → Reads p
      → ((r : Result A) → Reads (f r))
      → Reads (do r ← attempt p; f r)
  attempt-Reads {A} {C} p f h g ks =
      let o = replay order p ks in
      ap (λ (o : Result C × Keyspace B). o.1) (replay-tried order p f ks o.1 o.0 refl)
      ∙ g o.0 o.1
      ∙ h ks

  module _ (k : Key) where
    pub llen-Reads : Reads (llen k)
    unfolding replay effect
    llen-Reads ks = elim (Option-cases (as_list (ks k))) [
      | inl n ↦ rw n refl
      | inr (l, e) ↦ rw e refl
    ]

    pub hget-Reads : (f : String) → Reads (hget k f)
    unfolding replay effect
    hget-Reads f ks = elim (Option-cases (as_hash (ks k))) [
      | inl n ↦ rw n refl
      | inr (l, e) ↦ rw e refl
    ]

    pub hgetall-Reads : Reads (hgetall k)
    unfolding replay effect
    hgetall-Reads ks = elim (Option-cases (as_hash (ks k))) [
      | inl n ↦ rw n refl
      | inr (l, e) ↦ rw e refl
    ]

    pub lrange-Reads : (i : ℕ) (j : ℤ) → Reads (lrange k i j)
    unfolding replay effect
    lrange-Reads i j ks = ground arith

    pub zrangebyscore-Reads : (i j : ℤ) → Reads (zrangebyscore k i j)
    unfolding replay effect
    zrangebyscore-Reads i j ks = elim (Option-cases (as_zset (ks k))) [
      | inl n ↦ rw n refl
      | inr (l, e) ↦ rw e refl
    ]

    pub smembers-Reads : Reads (smembers k)
    unfolding replay effect
    smembers-Reads ks = elim (Option-cases (as_set (ks k))) [
      | inl n ↦ rw n refl
      | inr (l, e) ↦ rw e refl
    ]

    pub get-Reads : Reads (get k)
    unfolding replay effect
    get-Reads ks = ground arith

-- ===== src/Redis/Yielding.antt =====
-- Programs that succeed with a value of some kind, whatever the data are.
use rediq.Prelude.{String, ◌≡◌, refl, ◌∙◌, List}
use rediq.Errors.{Result, ok}
use rediq.Redis.{Prog, pure, attempt, ◌>>=◌}
use rediq.Redis.Keyspace.{Keyspace}
use rediq.Redis.Server.{replay, replay-then, replay-tried}

module _ {B : Type 0} (order : List String → List String) where
  -- The program succeeds with a value that has the property.
  abbrev pub Yields : {A : Type 0} → (A → Type 0) → Prog B A → Type 0
  Yields {A} P p =
      (ks : Keyspace B) → (a : A) × (ks' : Keyspace B) × (replay order p ks ≡ (ok a, ks')) × P a

  pub pure-Yields : {A : Type 0} (P : A → Type 0) (a : A) → P a → Yields P (pure a)
  unfolding replay
  pure-Yields P a h ks = (a, ks, refl, h)

  pub attempt-Yields :
      {A C : Type 0} (P : C → Type 0) (p : Prog B A) (f : Result A → Prog B C)
      → ((r : Result A) → Yields P (f r))
      → Yields P (do r ← attempt p; f r)
  attempt-Yields P p f h ks =
      let o = replay order p ks in
      let (c, ks', e, y) = h o.0 o.1 in (c, ks', replay-tried order p f ks o.1 o.0 refl ∙ e, y)

  pub bind-Yields :
      {A C : Type 0} (P : A → Type 0) (Q : C → Type 0) (p : Prog B A) (f : A → Prog B C)
      → Yields P p
      → ((a : A) → P a → Yields Q (f a))
      → Yields Q (p >>= f)
  bind-Yields P Q p f h g ks =
      let (a, ks', e, y) = h ks in
      let (c, ks'', e', z) = g a y ks' in (c, ks'', replay-then order p f ks ks' a e ∙ e', z)

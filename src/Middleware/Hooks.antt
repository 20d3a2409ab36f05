-- ===== src/Middleware/Hooks.antt =====
-- In which order the hooks of a chain run, and where they stop (rediq/src/middleware/mod.rs).
use rediq.Prelude.{◌≡◌, refl, ap, ◌∙◌, List, [], ◌∷◌, ◌++◌}
use mathlib.Core.Path.{fun_ext}
use rediq.Errors.{Result, ok, err}
use rediq.Task.{Task}
use rediq.Middleware.{
  Middleware, MiddlewareChain, add, go_on, before_each, chain_before, after_each, chain_after,
}

module _ {S : Type 0} where
  -- Hooks in sequence, one group behind another.
  go_on_assoc :
      (f g : S → Result (Unit {0}) × S) (o : Result (Unit {0}) × S)
      → go_on (λ s. go_on g (f s)) o ≡ go_on g (go_on f o)
  go_on_assoc f g (ok x, s) = refl
  go_on_assoc f g (err e, s) = refl

  go_on_nothing : (o : Result (Unit {0}) × S) → go_on (λ s. (ok tt, s)) o ≡ o
  go_on_nothing (ok x, s) = refl
  go_on_nothing (err e, s) = refl

  before_each-append :
      (ms ns : List (Middleware S)) (t : Task) (s : S)
      → before_each (ms ++ ns) t s ≡ go_on (before_each ns t) (before_each ms t s)
  before_each-append [] ns t s = refl
  before_each-append (m ∷ ms) ns t s =
      ap (λ f. go_on f (m.before t s)) (fun_ext (λ s'. before_each-append ms ns t s'))
      ∙ go_on_assoc (before_each ms t) (before_each ns t) (m.before t s)

  after_each-append :
      (ms ns : List (Middleware S)) (t : Task) (r : Result (Unit {0})) (s : S)
      → after_each (ms ++ ns) t r s ≡ go_on (after_each ns t r) (after_each ms t r s)
  after_each-append [] ns t r s = refl
  after_each-append (m ∷ ms) ns t r s =
      ap (λ f. go_on f (m.after t r s)) (fun_ext (λ s'. after_each-append ms ns t r s'))
      ∙ go_on_assoc (after_each ms t r) (after_each ns t r) (m.after t r s)

  -- The hooks of an added middleware run behind those of the chain, both before and after a task,
  -- and only if all of these succeed; the error of the first one that fails is the chain's.
  pub chain-add :
      (c : MiddlewareChain S) (m : Middleware S) (t : Task) (r : Result (Unit {0})) (s : S)
      → (chain_before (add c m) t s ≡ go_on (m.before t) (chain_before c t s))
        × (chain_after (add c m) t r s ≡ go_on (m.after t r) (chain_after c t r s))
  unfolding chain_before chain_after add
  chain-add c m t r s = (
    before_each-append c.middlewares (m ∷ []) t s
        ∙ ap (λ f. go_on f (before_each c.middlewares t s))
            (fun_ext (λ s'. go_on_nothing (m.before t s'))),
    after_each-append c.middlewares (m ∷ []) t r s
        ∙ ap (λ f. go_on f (after_each c.middlewares t r s))
            (fun_ext (λ s'. go_on_nothing (m.after t r s'))),
  )

-- ===== src/System/ProperDependencies.antt =====
-- The steps over dependents send only proper commands.
use rediq.Prelude.{
  ◌==◌, String, List, [], ◌∷◌, Option, none, some, Bool, true, false, refl, if◌then◌else◌,
}
use rediq.Errors.{Result, ok, err}
use rediq.Redis.{done, Value, pure}
use rediq.Redis.Kinds.{Proper}
use rediq.Redis.Sends.{Sends-bind}
use rediq.Task.{Task}
use rediq.Codec.{Codec}
use rediq.Dependencies.{
  push_named, push_found, push_dependent, check_one, check_each, check_found, check_dependents,
  Failing, skipped, counted, bury_packed, bury_unpacked, bury_bytes, bury_found, clean_up, fail_one,
  fail_each, fail_found, fail_dependents, failed_dependent,
}
use rediq.System.Proper.{IsProper}

module _ {B : Type 0} (codec : Codec B) where
  push_named-IsProper : (d : String) (b : Option B) → IsProper (push_named codec d b)
  push_named-IsProper d none = (tt, λ r. tt)
  push_named-IsProper d (some b) =
      Sends-bind Proper (done (codec.from_utf8 b)) _ tt
        (λ q. (refl, elim [ ok _ ↦ (tt, λ r. tt) | err _ ↦ tt ]))

  push_found-IsProper : (d : String) (v : Option (Value B)) → IsProper (push_found codec d v)
  push_found-IsProper d none = (tt, λ r. tt)
  push_found-IsProper d (some v) = push_named-IsProper d (codec.as_bytes v)

  last_or-IsProper :
      (d : String) (b : Bool) → IsProper (if◌then◌else◌ b (push_dependent codec d) (pure 0))
  last_or-IsProper d true = (refl, elim [ ok v ↦ push_found-IsProper d v | err _ ↦ tt ])
  last_or-IsProper d false = tt

  check_one-IsProper : (c d : String) → IsProper (check_one codec c d)
  unfolding check_one
  check_one-IsProper c d = (
    refl,
    elim [ ok _ ↦ (refl, elim [ ok n ↦ last_or-IsProper d (n == 0) | err _ ↦ tt ]) | err _ ↦ tt ],
  )

  check_each-IsProper : (c : String) (l : List String) → IsProper (check_each codec c l)
  unfolding check_each
  check_each-IsProper c [] = tt
  check_each-IsProper c (d ∷ l) =
      Sends-bind Proper (check_one codec c d) _ (check_one-IsProper c d)
        (λ n. Sends-bind Proper (check_each codec c l) _ (check_each-IsProper c l) (λ m. tt))

  check_found-IsProper : (c : String) (l : List String) → IsProper (check_found codec c l)
  check_found-IsProper c [] = tt
  check_found-IsProper c (d ∷ l) =
      Sends-bind Proper (check_each codec c (d ∷ l)) _ (check_each-IsProper c (d ∷ l))
        (λ n. (tt, elim [ ok _ ↦ tt | err _ ↦ tt ]))

  pub check_dependents-IsProper : (c : String) → IsProper (check_dependents codec c)
  unfolding check_dependents
  check_dependents-IsProper c = (refl, elim [ ok l ↦ check_found-IsProper c l | err _ ↦ tt ])

  bury_packed-IsProper : (q d : String) (r : Result B) → IsProper (bury_packed codec q d r)
  bury_packed-IsProper q d (err _) = tt
  bury_packed-IsProper q d (ok b) =
      (refl, elim [ ok _ ↦ (refl, elim [ ok _ ↦ tt | err _ ↦ tt ]) | err _ ↦ tt ])

  bury_unpacked-IsProper :
      (f q d : String) (r : Result Task) → IsProper (bury_unpacked codec f q d r)
  bury_unpacked-IsProper f q d (err _) = tt
  bury_unpacked-IsProper f q d (ok t) =
      bury_packed-IsProper q d (codec.to_vec (failed_dependent f t))

  bury_bytes-IsProper : (f q d : String) (b : Option B) → IsProper (bury_bytes codec f q d b)
  bury_bytes-IsProper f q d none = tt
  bury_bytes-IsProper f q d (some b) = bury_unpacked-IsProper f q d (codec.from_slice b)

  bury_found-IsProper :
      (f q d : String) (v : Option (Value B)) → IsProper (bury_found codec f q d v)
  bury_found-IsProper f q d none = tt
  bury_found-IsProper f q d (some v) = bury_bytes-IsProper f q d (codec.as_bytes v)

  clean_up-IsProper : (d : String) (f : Failing) → IsProper (clean_up codec d f)
  clean_up-IsProper d skipped = tt
  clean_up-IsProper d (counted n) = (tt, λ r. tt)

  fail_one-IsProper : (f q d : String) → IsProper (fail_one codec f q d)
  unfolding fail_one
  fail_one-IsProper f q d = (
    refl,
    elim [
      | ok v ↦
          Sends-bind Proper (bury_found codec f q d v) _ (bury_found-IsProper f q d v)
            (clean_up-IsProper d)
      | err _ ↦ tt
    ],
  )

  fail_each-IsProper : (f q : String) (l : List String) → IsProper (fail_each codec f q l)
  unfolding fail_each
  fail_each-IsProper f q [] = tt
  fail_each-IsProper f q (d ∷ l) =
      Sends-bind Proper (fail_one codec f q d) _ (fail_one-IsProper f q d)
        (λ n. Sends-bind Proper (fail_each codec f q l) _ (fail_each-IsProper f q l) (λ m. tt))

  fail_found-IsProper : (f q : String) (l : List String) → IsProper (fail_found codec f q l)
  fail_found-IsProper f q [] = tt
  fail_found-IsProper f q (d ∷ l) =
      Sends-bind Proper (fail_each codec f q (d ∷ l)) _ (fail_each-IsProper f q (d ∷ l))
        (λ n. (tt, λ r. tt))

  pub fail_dependents-IsProper : (f q : String) → IsProper (fail_dependents codec f q)
  unfolding fail_dependents
  fail_dependents-IsProper f q = (refl, elim [ ok l ↦ fail_found-IsProper f q l | err _ ↦ tt ])

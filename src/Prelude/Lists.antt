-- ===== src/Prelude/Lists.antt =====
-- Lists measured and cut by native numbers, under the library's names, and folds over tests.
use Prim.Native.Nat.{ℕ, zero, suc, ◌+◌}
use Prim.Native.String.{String}
use text.Mathlib.Text.{◌==◌ as str_eq}
use mathlib.Core.Path.{◌≡◌, refl, sym, ap, ◌∙◌}
use mathlib.Core.Bool.{Bool, false, ◌||◌}
use mathlib.Core.List.{List, [], ◌∷◌, ◌++◌}
use mathlib.Core.Option.{Option, none, some}
use native.Mathlib.Omega.{arith}
use text.Mathlib.TextPositions.{eq_refl}
use rediq.Prelude.Tests.{if◌then◌else◌, Bool-cases}
use text.Mathlib.TextEquality.{eq_iff}
use mathlib.Core.Logic.{inl, inr}

module _ {ℓ} {A : Type ℓ} where
  abbrev pub length : List A → ℕ
  length [] = 0
  length (x ∷ xs) = suc (length xs)

  abbrev pub take : ℕ → List A → List A
  take zero xs = []
  take (suc n) [] = []
  take (suc n) (x ∷ xs) = x ∷ take n xs

  abbrev pub drop : ℕ → List A → List A
  drop zero xs = xs
  drop (suc n) [] = []
  drop (suc n) (x ∷ xs) = drop n xs

  abbrev pub get_elem? : List A → ℕ → Option A
  get_elem? [] i = none
  get_elem? (x ∷ xs) zero = some x
  get_elem? (x ∷ xs) (suc i) = get_elem? xs i

  -- `Vec::push`
  abbrev pub snoc : List A → A → List A
  snoc xs a = xs ++ a ∷ []

-- Whether a text stands in a list of texts.
abbrev pub contains : List String → String → Bool
contains [] a = false
contains (x ∷ xs) a = str_eq x a || contains xs a

-- The list without its first occurrence of a text.
abbrev pub remove_first : String → List String → List String
remove_first a [] = []
remove_first a (x ∷ xs) = if str_eq x a then xs else x ∷ remove_first a xs

-- How often a text stands in a list.
abbrev pub occurrences : String → List String → ℕ
occurrences a [] = 0
occurrences a (x ∷ xs) = (if str_eq x a then 1 else 0) + occurrences a xs

-- A list without a member is empty.
pub never_there : (l : List String) → ((m : String) → occurrences m l ≡ 0) → l ≡ []
never_there [] h = refl
never_there (x ∷ l) h = ground (arith, eq_refl x, h x)

pub take-length : {A : Type 0} (l : List A) → take (length l) l ≡ l
take-length [] = refl
take-length (x ∷ l) = rw (take-length l) refl

pub str_eq_sym : (a b : String) → str_eq a b ≡ str_eq b a
str_eq_sym a b = elim (Bool-cases (str_eq a b)) [
  | inl y ↦ y ∙ sym ((eq_iff b a).1 (sym ((eq_iff a b).0 y)))
  | inr n ↦ elim (Bool-cases (str_eq b a)) [
    | inl y ↦ (eq_iff a b).1 (sym ((eq_iff b a).0 y)) ∙ sym y
    | inr m ↦ n ∙ sym m
  ]
]

-- A list with the members of a list of one is that list.
pub alone :
    (x : String) (l : List String)
    → ((m : String) → occurrences m l ≡ occurrences m (x ∷ []))
    → l ≡ x ∷ []
alone x [] h = ground (arith, eq_refl x, h x)
alone x (y ∷ l) h =
    let same : x ≡ y = (eq_iff x y).0 (ground (arith, eq_refl y, h y)) in
    let rest : l ≡ [] = never_there l (λ m. ground (arith, h m, ap (λ z. str_eq z m) same)) in
    rw rest (rw same refl)

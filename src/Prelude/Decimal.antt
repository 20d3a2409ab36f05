-- ===== src/Prelude/Decimal.antt =====
-- `str::parse` of Rust for unsigned and signed integers, on texts.
use Prim.Native.Nat.{ℕ, zero, suc, ◌+◌, ◌-◌, ◌*◌, ◌/◌, ◌%◌, ◌^◌}
use Prim.Native.Char.{code}
use Prim.Native.String.{String, ◌++◌}
use mathlib.Core.Bool.{◌||◌, true, false}
use mathlib.Core.Option.{Option, none, some}
use mathlib.Core.List.{[], ◌∷◌}
use mathlib.Core.Path.{◌≡◌, refl}
use rediq.Prelude.Tests.{ltb, ◌==◌, if◌then◌else◌}
use rediq.Prelude.Lists.{get_elem?}
use rediq.Prelude.Int.{ℤ, pos, negsuc}

-- The digits that are left, behind a value.
abbrev digits : String → ℕ → Option ℕ
digits String.[] n = some n
digits (String.◌∷◌ c s) n =
    if ltb (code c) b'0' || ltb b'9' (code c) then none else digits s (n * 10 + (code c - b'0'))

-- One digit at least.
abbrev magnitude : String → Option ℕ
magnitude String.[] = none
magnitude (String.◌∷◌ c s) = digits (String.◌∷◌ c s) 0

abbrev below : ℕ → Option ℕ → Option ℕ
below bound none = none
below bound (some n) = if ltb n bound then some n else none

-- A text with an optional plus, as a number below the bound.
abbrev pub parse_unsigned : ℕ → String → Option ℕ
parse_unsigned bound String.[] = none
parse_unsigned bound (String.◌∷◌ c s) =
    if code c == b'+' then below bound (magnitude s) else below bound (magnitude (String.◌∷◌ c s))

abbrev negated : ℕ → Option ℤ
negated zero = some (pos 0)
negated (suc n) = some (negsuc n)

abbrev negative : Option ℕ → Option ℤ
negative none = none
negative (some n) = negated n

abbrev positive : Option ℕ → Option ℤ
positive none = none
positive (some n) = some (pos n)

-- A text with an optional sign, as a number from `-bound` to below `bound`.
abbrev pub parse_signed : ℕ → String → Option ℤ
parse_signed bound String.[] = none
parse_signed bound (String.◌∷◌ c s) =
    if code c == b'-'
    then negative (below (suc bound) (magnitude s))
    else positive (parse_unsigned bound (String.◌∷◌ c s))

abbrev digit_or : Option String → String
digit_or none = ""
digit_or (some d) = d

abbrev digit : ℕ → String
digit d = digit_or (get_elem? ("0" ∷ "1" ∷ "2" ∷ "3" ∷ "4" ∷ "5" ∷ "6" ∷ "7" ∷ "8" ∷ "9" ∷ []) d)

-- What `{}` prints of a number. As many rounds as the number are more than enough.
abbrev shown : ℕ → ℕ → String → String
shown zero n rest = rest
shown (suc fuel) n rest = elim (ltb n 10) [
  | true ↦ digit n ++ rest
  | false ↦ shown fuel (n / 10) (digit (n % 10) ++ rest)
]

unfoldable pub show : ℕ → String
show n = shown (suc n) n ""

show_runs : show 1_073_741_824 ≡ "1073741824"
unfolding show
show_runs = refl

parse_runs : parse_unsigned (2 ^ 16) "6379" ≡ some 6379
parse_runs = refl

parse_too_large : parse_unsigned (2 ^ 16) "65536" ≡ none
parse_too_large = refl

parse_negative : parse_signed (2 ^ 63) "-12" ≡ some (negsuc 11)
parse_negative = refl

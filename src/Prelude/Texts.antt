-- ===== src/Prelude/Texts.antt =====
-- What the program uses of Rust's `str`: prefixes, pieces between separators, and joining.
use Prim.Native.Nat.{ℕ}
use Prim.Native.Char.{Char, code}
use Prim.Native.String.{String, ◌++◌}
use text.Mathlib.TextLemmas.{nil-append, cons-append}
use mathlib.Core.Bool.{Bool, true, false}
use mathlib.Core.Option.{Option, none, some}
use mathlib.Core.List.{List, [], ◌∷◌}
use mathlib.Core.Path.{◌≡◌, refl}
use rediq.Prelude.Tests.{◌==◌, if◌then◌else◌}
use native.Mathlib.Omega.{arith}

-- `strip_prefix`: the rest of a text behind a prefix, if it has the prefix.
abbrev pub strip_prefix : String → String → Option String
strip_prefix String.[] s = some s
strip_prefix (String.◌∷◌ c p) String.[] = none
strip_prefix (String.◌∷◌ c p) (String.◌∷◌ d s) = if code c == code d then strip_prefix p s else none

pub strip_prefix-append : (p n : String) → strip_prefix p (p ++ n) ≡ some n
strip_prefix-append String.[] n = rw (nil-append n) refl
strip_prefix-append (String.◌∷◌ c p) n = ground (arith, cons-append c p n, strip_prefix-append p n)

-- `split`: what stands between the separators, one piece at least.
abbrev longer : Char → List String → List String
longer c [] = (String.◌∷◌ c "") ∷ []
longer c (p ∷ ps) = (String.◌∷◌ c p) ∷ ps

abbrev pub split : ℕ → String → List String
split sep String.[] = "" ∷ []
split sep (String.◌∷◌ c s) =
    let rest = split sep s in if code c == sep then "" ∷ rest else longer c rest

-- `rfind` of a separator, with the texts before and behind it.
abbrev found_later : Char → Bool → String → Option (String × String) → Option (String × String)
found_later c here s (some (a, b)) = some (String.◌∷◌ c a, b)
found_later c true s none = some ("", s)
found_later c false s none = none

abbrev pub split_last : ℕ → String → Option (String × String)
split_last sep String.[] = none
split_last sep (String.◌∷◌ c s) = found_later c (code c == sep) s (split_last sep s)

abbrev pub join : String → List String → String
join sep [] = ""
join sep (p ∷ []) = p
join sep (p ∷ q ∷ ps) = p ++ (sep ++ join sep (q ∷ ps))

-- No character of the text is the separator.
abbrev pub lacks : ℕ → String → Bool
lacks sep String.[] = true
lacks sep (String.◌∷◌ c s) = let rest = lacks sep s in if code c == sep then false else rest

pub split-lacks : (sep : ℕ) (s : String) → lacks sep s ≡ true → split sep s ≡ s ∷ []
split-lacks sep String.[] h = refl
split-lacks sep (String.◌∷◌ c s) h = ground (arith, h, split-lacks sep s)

pub split-append :
    (sep : ℕ) (a : String) (c : Char) (b : String)
    → lacks sep a ≡ true
    → (code c == sep) ≡ true
    → split sep (a ++ String.◌∷◌ c b) ≡ a ∷ split sep b
split-append sep String.[] c b h e = rw (nil-append (String.◌∷◌ c b)) (rw e refl)
split-append sep (String.◌∷◌ d a) c b h e =
    let rest = split-append sep a c b (ground (arith, h)) e in
    rw (cons-append d a (String.◌∷◌ c b)) (ground (arith, h, rest))

pub split_last-lacks : (sep : ℕ) (s : String) → lacks sep s ≡ true → split_last sep s ≡ none
split_last-lacks sep String.[] h = refl
split_last-lacks sep (String.◌∷◌ c s) h = ground (arith, h, split_last-lacks sep s)

pub split_last-append :
    (sep : ℕ) (a : String) (c : Char) (b : String)
    → lacks sep b ≡ true
    → (code c == sep) ≡ true
    → split_last sep (a ++ String.◌∷◌ c b) ≡ some (a, b)
split_last-append sep String.[] c b h e =
    rw (nil-append (String.◌∷◌ c b)) (rw (e, split_last-lacks sep b h) refl)
split_last-append sep (String.◌∷◌ d a) c b h e =
    rw (cons-append d a (String.◌∷◌ c b)) (rw (split_last-append sep a c b h e) refl)

pub lacks-append :
    (sep : ℕ) (a b : String) → lacks sep a ≡ true → lacks sep b ≡ true → lacks sep (a ++ b) ≡ true
lacks-append sep String.[] b h g = rw (nil-append b) g
lacks-append sep (String.◌∷◌ c a) b h g =
    rw (cons-append c a b) (ground (arith, h, lacks-append sep a b))

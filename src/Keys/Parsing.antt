-- ===== src/Keys/Parsing.antt =====
-- The texts of keys (rediq/src/storage/keys.rs) do not collide: a key can be read off its text.
use Prim.Native.Char.{code}
use Prim.Native.String.{◌++◌}
use text.Mathlib.TextLemmas.{cons-append}
use rediq.Prelude.{
  String, ◌≡◌, refl, Bool, true, false, ◌&&◌, ◌==◌, Bool-cases, inl, inr, arith, Option, none, some,
  List, [], ◌∷◌, if◌then◌else◌, strip_prefix, strip_prefix-append,
}
use rediq.Keys.{Family, Key, key, tag, prefix, render}
use rediq.Keys.Names.{families, tag_injective}

abbrev found : Family → Option String → Option Key → Option Key
found f none other = other
found f (some n) other = some (key f n)

abbrev first_of : List Family → String → Option Key
first_of [] s = none
first_of (f ∷ fs) s = found f (strip_prefix (prefix f) s) (first_of fs s)

-- The key of a text: the first family whose prefix it has.
abbrev pub parse : String → Option Key
parse s = first_of families s

-- Two texts differ before either ends.
abbrev clash : String → String → Bool
clash String.[] q = false
clash (String.◌∷◌ c p) String.[] = false
clash (String.◌∷◌ c p) (String.◌∷◌ d q) = if code c == code d then clash p q else true

strip_prefix-clash : (p q n : String) → clash p q ≡ true → strip_prefix p (q ++ n) ≡ none
strip_prefix-clash String.[] q n h = cc
strip_prefix-clash (String.◌∷◌ c p) String.[] n h = cc
strip_prefix-clash (String.◌∷◌ c p) (String.◌∷◌ d q) n h = elim (Bool-cases (code c == code d)) [
  | inl y ↦ rw (cons-append d q n) (rw y (strip_prefix-clash p q n (ground arith)))
  | inr f ↦ rw (cons-append d q n) (rw f refl)
]

-- The family stands in the list, behind families whose prefixes clash with its own only.
abbrev finds : List Family → Family → Bool
finds [] f = false
finds (g ∷ gs) f = if tag g == tag f then true else (clash (prefix g) (prefix f) && finds gs f)

finding : (f : Family) → finds families f ≡ true
unfolding prefix
finding Family.queue = refl
finding _ = refl

first_of-finds :
    (fs : List Family) (f : Family) (n : String)
    → finds fs f ≡ true
    → first_of fs (prefix f ++ n) ≡ some (key f n)
first_of-finds [] f n h = cc
first_of-finds (g ∷ gs) f n h = elim (Bool-cases (tag g == tag f)) [
  | inl y ↦
      let e = tag_injective g f (ground arith) in rw e (rw (strip_prefix-append (prefix f) n) refl)
  | inr d ↦
      let c : clash (prefix g) (prefix f) ≡ true = ground arith in
      rw (strip_prefix-clash (prefix g) (prefix f) n c) (first_of-finds gs f n (ground arith))
]

-- The text of a key gives back its family and its name, so no two keys have one text.
pub parse-render : (k : Key) → parse (render k) ≡ some k
unfolding render
parse-render k = first_of-finds families k.family k.name (finding k.family)

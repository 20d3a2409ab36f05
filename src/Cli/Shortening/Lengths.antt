-- ===== src/Cli/Shortening/Lengths.antt =====
-- How long shortened texts are (rediq-cli/src/utils.rs).
use rediq.Prelude.{
  ℕ, zero, suc, ◌+◌, ◌-◌, ◌%◌, ◌^◌, ◌≤◌, ◌<◌, leb, ◌≡◌, refl, ap, ◌∙◌, Option, none, some, List, [],
  ◌∷◌, ◌++◌, length, take, drop, get_elem?, arith, Bool-cases, inl, inr,
}
use rediq.Cli.Shortening.{
  shorten_string, shorten_id, dotted_behind, dotted_ahead, slice_to, slice_from, dots, begins,
}

length-take : (n : ℕ) (s : List ℕ) → n ≤ length s → length (take n s) ≡ n
length-take zero s h = refl
length-take (suc n) [] h = omega arith
length-take (suc n) (x ∷ s) h = ap suc (length-take n s (omega arith))

length-drop : (n : ℕ) (s : List ℕ) → length (drop n s) ≡ length s - n
length-drop zero s = omega arith
length-drop (suc n) [] = omega arith
length-drop (suc n) (x ∷ s) = length-drop n s ∙ omega arith

length-append : (s t : List ℕ) → length (s ++ t) ≡ length s + length t
length-append [] t = omega arith
length-append (x ∷ s) t = ap suc (length-append s t) ∙ omega arith

-- A text of at most so many bytes, or a panic.
abbrev pub IsShort : ℕ → Option (List ℕ) → Type 0
IsShort m none = Unit
IsShort m (some r) = length r ≤ m

behind-IsShort :
    (s : List ℕ) (m : ℕ) → 3 ≤ m → m < length s → IsShort m (dotted_behind (slice_to (m - 3) s))
behind-IsShort s m three long = elim (Bool-cases (begins (get_elem? s (m - 3)))) [
  | inl y ↦
      rw y (omega (arith, length-append (take (m - 3) s) dots, length-take (m - 3) s (omega arith)))
  | inr f ↦ rw f tt
]

ahead-IsShort :
    (s : List ℕ) (m i : ℕ)
    → 3 ≤ m
    → length s - i ≤ m - 3
    → IsShort m (dotted_ahead (slice_from i s))
ahead-IsShort s m i three few = elim (Bool-cases (begins (get_elem? s i))) [
  | inl y ↦ rw y (omega (arith, length-append dots (drop i s), length-drop i s))
  | inr f ↦ rw f tt
]

-- A text that is shortened to at least three bytes is no longer than asked for, or the slice
-- falls within a character and panics.
pub shorten-IsShort :
    (s : List ℕ) (max_len : ℕ)
    → 3 ≤ max_len
    → max_len < 2 ^ 64
    → IsShort max_len (shorten_string s max_len) × IsShort max_len (shorten_id s max_len)
unfolding shorten_string shorten_id
shorten-IsShort s max_len three fits = elim (Bool-cases (leb (length s) max_len)) [
  | inl y ↦ rw y (ground arith, ground arith)
  | inr n ↦
      let long : max_len < length s = ground arith in
      let w : (max_len + 2 ^ 64 - 3) % 2 ^ 64 ≡ max_len - 3 = omega arith in
      rw (n, w)
        (
          behind-IsShort s max_len three long,
          ahead-IsShort s max_len (length s - (max_len - 3)) three (omega arith),
        )
]

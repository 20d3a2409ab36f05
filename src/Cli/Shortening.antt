-- ===== src/Cli/Shortening.antt =====
-- Short texts (rediq-cli/src/utils.rs). Their lengths and indices are in bytes, so a text is the list of
-- its bytes here; `none` is a panic.
pub mod Lengths
use rediq.Prelude.{
  ℕ, ◌+◌, ◌-◌, ◌%◌, ◌^◌, ◌≤◌, ◌<◌, ltb, leb, not, Bool, true, false, ◌&&◌, Option, none, some, List,
  [], ◌∷◌, ◌++◌, length, take, drop, get_elem?, if◌then◌else◌,
}

-- A byte that does not begin a character.
abbrev pub is_continuation : ℕ → Bool
is_continuation b = leb 128 b && ltb b 192

abbrev pub begins : Option ℕ → Bool
begins none = true
begins (some b) = not (is_continuation b)

-- Slices at an index that is not past the end; within a character they panic.
abbrev pub slice_to : ℕ → List ℕ → Option (List ℕ)
slice_to i s = if begins (get_elem? s i) then some (take i s) else none

abbrev pub slice_from : ℕ → List ℕ → Option (List ℕ)
slice_from i s = if begins (get_elem? s i) then some (drop i s) else none

abbrev pub dots : List ℕ
dots = 46 ∷ 46 ∷ 46 ∷ []

abbrev pub dotted_behind : Option (List ℕ) → Option (List ℕ)
dotted_behind none = none
dotted_behind (some s) = some (s ++ dots)

abbrev pub dotted_ahead : Option (List ℕ) → Option (List ℕ)
dotted_ahead none = none
dotted_ahead (some s) = some (dots ++ s)

unfoldable pub shorten_string : List ℕ → ℕ → Option (List ℕ)
shorten_string s max_len =
    if leb (length s) max_len then some s else dotted_behind (slice_to (max_len - 3) s)

-- The difference of a limit below three wraps round.
unfoldable pub shorten_id : List ℕ → ℕ → Option (List ℕ)
shorten_id id max_len =
    if leb (length id) max_len
    then some id
    else dotted_ahead (slice_from (length id - (max_len + 2 ^ 64 - 3) % 2 ^ 64) id)

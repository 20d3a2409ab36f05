-- ===== src/Redis/Scan.antt =====
-- `scan_match` (rediq/src/storage/redis/mod.rs). What SCAN finds is the server's choice, so the first
-- page of each call is an argument. A page lists what stands for the `*` at the end of the pattern in
-- the keys that match it.
use rediq.Prelude.{ℕ, ◌≡◌, String, Bool, true, false, Option, none, some, List, []}
use rediq.Errors.{Result, ok, err}

pub record Page : Type 0 where
  pub has_more : Bool
  pub results : List String

abbrev pub marker : Bool → ℕ
marker true = 1
marker false = 0

-- The cursor that is passed in is not used: each call starts a scan of its own, and gives the first
-- page of it.
unfoldable pub scan_match : ℕ → Option (Result Page) → Result (ℕ × List String)
scan_match cursor none = ok (0, [])
scan_match cursor (some (err e)) = err e
scan_match cursor (some (ok page)) = ok (marker page.has_more, page.results)

-- The first page of the n-th call.
abbrev pub Scans : Type 0
Scans = ℕ → Option (Result Page)

-- No further page is announced, or the call fails.
abbrev pub IsLast : Option (Result Page) → Type 0
IsLast none = Unit
IsLast (some (err e)) = Unit
IsLast (some (ok page)) = page.has_more ≡ false

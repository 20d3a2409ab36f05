-- ===== src/Janitor.antt =====
-- The `Janitor` of server/janitor.rs (rediq/src/server/janitor.rs). The first page of each of its
-- scans is an argument, as is the fuel: `none` means that the loop has not ended with it.
pub mod Ending
pub mod Pages
pub mod Sparing
use Prim.Native.String.{◌++◌}
use rediq.Prelude.{
  ℕ, zero, suc, ◌+◌, leb, ◌==◌, ℤ, pos, ltb_ℤ, String, Bool, true, false, Option, none, some, List,
  [], ◌∷◌, length, snoc, if◌then◌else◌,
}
use rediq.Errors.{Result, ok, err}
use rediq.Task.{from_secs}
use rediq.Keys.{Key, Family, key}
use rediq.Redis.{Prog, done, pure, attempt, ◌>>=◌}
use rediq.Redis.Client.{ttl, del}
use rediq.Redis.Scan.{Scans, Page, scan_match}

pub record JanitorConfig : Type 0 where
  pub interval : ℕ
  pub batch_size : ℕ
  pub ttl_threshold : ℤ

abbrev pub default_janitor : JanitorConfig
default_janitor = record { interval = from_secs 60; batch_size = 100; ttl_threshold = pos 60 }

unfoldable pub with_interval : JanitorConfig → ℕ → JanitorConfig
with_interval c duration = record c { interval = duration }

unfoldable pub with_batch_size : JanitorConfig → ℕ → JanitorConfig
with_batch_size c size = record c { batch_size = size }

unfoldable pub with_ttl_threshold : JanitorConfig → ℤ → JanitorConfig
with_ttl_threshold c seconds = record c { ttl_threshold = seconds }

-- The pattern is the text of a task key with an empty name, and `:*`: a key that matches it is one of
-- a task whose identifier starts with a colon.
abbrev pub matched : String → Key
matched rest = key Family.task (":" ++ rest)

abbrev pub matched_keys : List String → List Key
matched_keys [] = []
matched_keys (n ∷ ns) = matched n ∷ matched_keys ns

module _ (cfg : JanitorConfig) where
  abbrev pub chosen : List String → String → Result (Option ℤ) → List String
  chosen keys n (ok (some left)) = if ltb_ℤ left cfg.ttl_threshold then snoc keys n else keys
  chosen keys n (ok none) = keys
  chosen keys n (err _) = keys

  abbrev pub enough : ℕ → ℕ → Bool
  enough next deleted = if leb cfg.batch_size deleted then true else next == 0

abbrev pub counted : ℕ → Result ℕ → ℕ
counted deleted (ok count) = deleted + count
counted deleted (err _) = deleted

-- The deletion of the collected keys; one that fails is logged.
unfoldable pub delete_collected : {B : Type 0} → ℕ → List String → Prog B ℕ
delete_collected deleted [] = pure deleted
delete_collected deleted (n ∷ ns) = do
  r ← attempt (del (matched_keys (n ∷ ns)))
  pure (counted deleted r)

module _ {B : Type 0} (cfg : JanitorConfig) where
  -- The loop over the keys of a page, `deleted` keys having been deleted before.
  unfoldable pub collect : ℕ → List String → List String → Prog B (List String)
  collect deleted keys [] = pure keys
  collect deleted keys (n ∷ ns) =
      if leb cfg.batch_size (deleted + length keys)
      then pure keys
      else do left ← attempt (ttl (matched n)); collect deleted (chosen cfg keys n left) ns

  -- One round of the loop up to its tests.
  abbrev pub clean_page : ℕ → List String → Prog B ℕ
  clean_page deleted names = do keys ← collect deleted [] names; delete_collected deleted keys

  abbrev pub end_round : (ℕ → ℕ → Prog B (Option ℕ)) → ℕ → ℕ → Prog B (Option ℕ)
  end_round rest next deleted = elim (enough cfg next deleted) [
    | true ↦ pure (some deleted)
    | false ↦ rest next deleted
  ]

  -- One round: `rest` is the loop from then on.
  abbrev pub cleanup_round :
      ℕ → ℕ → (ℕ → ℕ → Prog B (Option ℕ)) → Option (Result Page) → Prog B (Option ℕ)
  cleanup_round cursor deleted rest scan = do
    (next, names) ← done (scan_match cursor scan)
    deleted' ← clean_page deleted names
    end_round rest next deleted'

  -- `i` scans were made before.
  unfoldable pub cleanup_loop : Scans → ℕ → ℕ → ℕ → ℕ → Prog B (Option ℕ)
  cleanup_loop scans zero i cursor deleted = pure none
  cleanup_loop scans (suc fuel) i cursor deleted =
      cleanup_round cursor deleted (cleanup_loop scans fuel (i + 1)) (scans i)

  unfoldable pub cleanup : Scans → ℕ → Prog B (Option ℕ)
  unfolding cleanup_loop
  cleanup scans fuel = cleanup_loop scans fuel 0 0 0

  -- `run`, one scan argument for each round before the shutdown flag is seen. A failing clean-up is
  -- logged; one that does not end keeps `run` from ending.
  abbrev pub after_cleanup :
      Prog B (Option (Unit {0})) → Result (Option ℕ) → Prog B (Option (Unit {0}))
  after_cleanup rest (ok none) = pure none
  after_cleanup rest (ok (some count)) = rest
  after_cleanup rest (err _) = rest

  abbrev pub run_janitor : ℕ → List Scans → Prog B (Option (Unit {0}))
  run_janitor fuel [] = pure (some tt)
  run_janitor fuel (scans ∷ rounds) = do
    r ← attempt (cleanup scans fuel)
    after_cleanup (run_janitor fuel rounds) r

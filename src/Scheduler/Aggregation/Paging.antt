-- ===== src/Scheduler/Aggregation/Paging.antt =====
-- When `check_aggregation` ends (rediq/src/server/scheduler.rs).
use rediq.Prelude.{
  ℕ, zero, suc, ◌+◌, ◌≡◌, ◌≢◌, refl, ap, sym, ◌∙◌, true, Option, none, some, List, [], String,
  arith,
}
use mathlib.Core.Path.{subst}
use rediq.Errors.{Result, ok, err}
use rediq.Redis.{◌>>=◌, ◌>>◌, done}
use rediq.Redis.Keyspace.{Keyspace}
use rediq.Redis.Server.{
  Server, outcome, outcome-eq-replay, replay, replay-bind, replay-then, continue,
}
use rediq.Redis.Scan.{Scans, Page, scan_match, marker, IsLast}
use rediq.Codec.{Codec}
use rediq.Aggregator.{AggregatorManager}
use rediq.Scheduler.Aggregation.{follow, followed, check_aggregation, check_groups, last_page}

-- Every call announces a further page.
abbrev pub AllMore : Scans → Type 0
AllMore scans = (n : ℕ) → (p : Page) × (scans n ≡ some (ok p)) × (p.has_more ≡ true)

module _ (scans : Scans) where
  follow_ends_last :
      (fuel i c : ℕ) (scan : Option (Result Page))
      → scans i ≡ scan
      → IsLast scan
      → follow scans (suc (suc fuel)) i (suc c) ≢ none
  unfolding follow scan_match
  follow_ends_last fuel i c none e last h = ground (arith, e)
  follow_ends_last fuel i c (some (err x)) e last h = ground (arith, e)
  follow_ends_last fuel i c (some (ok p)) e last h = ground (arith, e)

  follow_goes_on :
      (fuel i c : ℕ)
      → follow scans (suc fuel) i c ≡ none
      → (d : ℕ) × (follow scans fuel (i + 1) d ≡ none)
  unfolding follow
  follow_goes_on fuel i zero h = cc
  follow_goes_on fuel i (suc c) h = at (scan_match (suc c) (scans i)) h
    where
      at :
          (r : Result (ℕ × List String))
          → followed (follow scans fuel (i + 1)) r ≡ none
          → (d : ℕ) × (follow scans fuel (i + 1) d ≡ none)
      at (ok (next, more)) e = (next, e)
      at (err x) e = cc

  follow_ends :
      (n i j cursor : ℕ) → i + n ≡ j → IsLast (scans j) → follow scans (suc (suc n)) i cursor ≢ none
  unfolding follow
  follow_ends n i j zero e last h = cc
  follow_ends zero i j (suc c) e last h =
      let at : i ≡ j = omega arith in
      follow_ends_last zero i c (scans i) refl (subst (λ k. IsLast (scans k)) (sym at) last) h
  follow_ends (suc n) i j (suc c) e last h =
      let (d, g) = follow_goes_on (suc (suc n)) i (suc c) h in
      follow_ends n (i + 1) j d (omega arith) last g

  follow_endless : (fuel i c : ℕ) → AllMore scans → follow scans fuel i (suc c) ≡ none
  unfolding follow scan_match
  follow_endless zero i c all = refl
  follow_endless (suc fuel) i c all =
      let (p, e, m) = all i in rw e (rw m (follow_endless fuel (i + 1) 0 all))

module _ {B : Type 0} (codec : Codec B) (m : AggregatorManager) (scans : Scans) where
  last_page_ends :
      (o : Option (Result (Unit {0}))) (order : List String → List String) (ks : Keyspace B)
      → o ≢ none
      → (replay order (last_page o) ks).0 ≢ ok none
  unfolding replay
  last_page_ends none order ks n h = n refl
  last_page_ends (some (ok x)) order ks n h = cc
  last_page_ends (some (err e)) order ks n h = cc

  groups_end :
      (order : List String → List String) (page : Option (Result (Unit {0})))
      (o : Result (Unit {0}) × Keyspace B)
      → page ≢ none
      → (continue order (λ _. last_page page) o).0 ≢ ok none
  groups_end order page (ok x, ks) n h = last_page_ends page order ks n h
  groups_end order page (err e, ks) n h = cc

  -- The run behind the first scan does not end only if the loop over further pages does not.
  page_ends :
      (order : List String → List String) (groups : List String) (page : Option (Result (Unit {0})))
      (ks : Keyspace B)
      → page ≢ none
      → (replay order (do check_groups codec m groups; last_page page) ks).0 ≢ ok none
  page_ends order groups page ks n h =
      groups_end order page (replay order (check_groups codec m groups) ks) n (
        sym (
          ap (λ (o : Result (Option (Unit {0})) × Keyspace B). o.0)
            (replay-bind order (check_groups codec m groups) (λ _. last_page page) ks))
        ∙ h)

  first_scan_ends :
      (first : Option (Result Page)) (fuel : ℕ) (order : List String → List String)
      (ks : Keyspace B)
      → ((cursor : ℕ) → follow scans fuel 1 cursor ≢ none)
      → (replay order
          (do
            (cursor, groups) ← done (scan_match 0 first)
            check_groups codec m groups
            last_page (follow scans fuel 1 cursor))
          ks).0
        ≢ ok none
  unfolding replay scan_match
  first_scan_ends none fuel order ks n h = page_ends order [] (follow scans fuel 1 0) ks (n 0) h
  first_scan_ends (some (err e)) fuel order ks n h = cc
  first_scan_ends (some (ok p)) fuel order ks n h =
      page_ends order p.results (follow scans fuel 1 (marker p.has_more)) ks (n (marker p.has_more))
        h

  -- `check_aggregation` ends when the first page of one of its scans from the second on announces
  -- no further page, or that scan fails: as many rounds as scans are enough.
  pub check_aggregation_ends :
      (n : ℕ) (s : Server B) (db : s.Db)
      → IsLast (scans (suc n))
      → (outcome s (check_aggregation codec (some m) scans (suc (suc n))) db).0 ≢ ok none
  unfolding check_aggregation
  check_aggregation_ends n s db last h =
      first_scan_ends (scans 0) (suc (suc n)) s.order (s.view db)
        (λ cursor. follow_ends scans n 1 (suc n) cursor (omega arith) last)
        (sym (
            ap (λ (o : Result (Option (Unit {0})) × Keyspace B). o.0)
              (outcome-eq-replay s (check_aggregation codec (some m) scans (suc (suc n))) db))
          ∙ h)

  -- If the first page of every scan announces a further one, and the groups of the first scan are
  -- checked without an error, `check_aggregation` does not end, however many rounds it has.
  pub check_aggregation_endless :
      (fuel : ℕ) (s : Server B) (db : s.Db) (ks : Keyspace B) (names : List String)
      → scans 0 ≡ some (ok (record { has_more = true; results = names }))
      → ((n : ℕ) → (p : Page) × (scans n ≡ some (ok p)) × (p.has_more ≡ true))
      → outcome s (check_groups codec m names) db ≡ (ok tt, ks)
      → outcome s (check_aggregation codec (some m) scans fuel) db ≡ (ok none, ks)
  unfolding replay check_aggregation scan_match
  check_aggregation_endless fuel s db ks names first all groups =
      outcome-eq-replay s (check_aggregation codec (some m) scans fuel) db
      ∙ rw first (
          replay-then s.order (check_groups codec m names) (λ _. last_page (follow scans fuel 1 1))
            (s.view db) ks tt (sym (outcome-eq-replay s (check_groups codec m names) db) ∙ groups)
          ∙ rw (follow_endless scans fuel 1 0 all) refl)

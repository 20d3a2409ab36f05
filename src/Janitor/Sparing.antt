-- ===== src/Janitor/Sparing.antt =====
-- What `cleanup` may delete, and how much (rediq/src/server/janitor.rs).
use rediq.Prelude.{
  ℕ, zero, suc, ◌+◌, ◌≤◌, ◌≡◌, refl, ap, sym, ◌∙◌, String, Option, none, some, List, [], arith,
  Bool-cases, inl, inr,
}
use mathlib.Core.Path.{subst}
use rediq.Errors.{Result, ok, err}
use rediq.Keys.{Key}
use rediq.Redis.{Prog, ◌>>=◌}
use rediq.Redis.Keyspace.{Keyspace}
use rediq.Redis.Server.{Server, outcome, outcome-eq-replay, replay, replay-bind, continue}
use rediq.Redis.Scan.{Scans, Page, scan_match, marker}
use rediq.Janitor.{
  JanitorConfig, cleanup_loop, cleanup_round, cleanup, clean_page, enough, end_round,
}
use rediq.Janitor.Pages.{expiring, IsSpared, Cleaned, page-Cleaned}

module _ (cfg : JanitorConfig) where
  -- The count of a run that has ended is within the batch.
  abbrev pub IsWithin : Result (Option ℕ) → Type 0
  IsWithin (ok (some n)) = n ≤ cfg.batch_size
  IsWithin (ok none) = Unit
  IsWithin (err e) = Unit

module _ {B : Type 0} (cfg : JanitorConfig) where
  -- And every spared key is as before.
  abbrev pub Spares : Keyspace B → Result (Option ℕ) × Keyspace B → Type 0
  Spares ks o = IsWithin cfg o.0 × ((j : Key) → IsSpared cfg ks j → o.1 j ≡ ks j)

module _ {B : Type 0} (cfg : JanitorConfig) (order : List String → List String)
    (rest : ℕ → ℕ → Prog B (Option ℕ))
    (go_on : (next d : ℕ) (ks : Keyspace B)
      → d ≤ cfg.batch_size
      → Spares cfg ks (replay order (rest next d) ks)) where
  still : (ks ks' : Keyspace B) (j : Key) → ks' j ≡ ks j → IsSpared cfg ks j → IsSpared cfg ks' j
  still ks ks' j same (inl e) = inl (ap (expiring cfg) same ∙ e)
  still ks ks' j same (inr f) = inr f

  test-Spares :
      (next : ℕ) (ks : Keyspace B) (o : Result ℕ × Keyspace B)
      → Cleaned cfg ks o
      → Spares cfg ks (continue order (end_round cfg rest next) o)
  unfolding replay
  test-Spares next ks (err e, ks') (d, x, b, k) = cc
  test-Spares next ks (ok c, ks') (d, x, b, k) = elim (Bool-cases (enough cfg next c)) [
    | inl y ↦ rw (y, end_round) (ground (arith, x), k)
    | inr n ↦
        rw (n, end_round)
          (let r = go_on next c ks' (ground (arith, x)) in
            (r.0, λ j e. r.1 j (still ks ks' j (k j e) e) ∙ k j e))
  ]

  scan-Spares :
      (next deleted : ℕ) (names : List String) (ks : Keyspace B)
      → deleted ≤ cfg.batch_size
      → Spares cfg ks (replay order (clean_page cfg deleted names >>= end_round cfg rest next) ks)
  scan-Spares next deleted names ks h =
      subst (Spares cfg ks)
        (sym (replay-bind order (clean_page cfg deleted names) (end_round cfg rest next) ks))
        (test-Spares next ks (replay order (clean_page cfg deleted names) ks)
          (page-Cleaned cfg order deleted names ks h))

  round-Spares :
      (scan : Option (Result Page)) (cursor deleted : ℕ) (ks : Keyspace B)
      → deleted ≤ cfg.batch_size
      → Spares cfg ks (replay order (cleanup_round cfg cursor deleted rest scan) ks)
  unfolding replay scan_match
  round-Spares none cursor deleted ks h = scan-Spares 0 deleted [] ks h
  round-Spares (some (err e)) cursor deleted ks h = (tt, λ j x. refl)
  round-Spares (some (ok p)) cursor deleted ks h =
      scan-Spares (marker p.has_more) deleted p.results ks h

module _ {B : Type 0} (cfg : JanitorConfig) (scans : Scans) where
  loop-Spares :
      (order : List String → List String) (fuel i cursor deleted : ℕ) (ks : Keyspace B)
      → deleted ≤ cfg.batch_size
      → Spares cfg ks (replay order (cleanup_loop cfg scans fuel i cursor deleted) ks)
  unfolding replay cleanup_loop
  loop-Spares order zero i cursor deleted ks h = (tt, λ j x. refl)
  loop-Spares order (suc fuel) i cursor deleted ks h =
      round-Spares cfg order (cleanup_loop cfg scans fuel (i + 1))
        (λ next d ks' b. loop-Spares order fuel (i + 1) next d ks' b) (scans i) cursor deleted ks h

  -- The count that `cleanup` gives is a batch at most, and it deletes none but keys that expire
  -- in less than the threshold and that are of tasks whose identifier starts with a colon; any
  -- other key keeps its data.
  pub cleanup-Spares :
      (fuel : ℕ) (s : Server B) (db : s.Db)
      → Spares cfg (s.view db) (outcome s (cleanup cfg scans fuel) db)
  unfolding cleanup
  cleanup-Spares fuel s db =
      subst (Spares cfg (s.view db)) (sym (outcome-eq-replay s (cleanup cfg scans fuel) db))
        (loop-Spares s.order fuel 0 0 0 (s.view db) (omega arith))

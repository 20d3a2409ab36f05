-- ===== src/Janitor/Ending.antt =====
-- When the loop of `cleanup` ends (rediq/src/server/janitor.rs).
use rediq.Prelude.{
  ℕ, zero, suc, ◌<◌, ◌∷◌, leb, ◌+◌, ◌≡◌, ◌≢◌, refl, ap, sym, ◌∙◌, String, Bool, true, false, Option,
  none, some, List, [], arith, Bool-cases, inl, inr,
}
use mathlib.Core.Path.{subst}
use rediq.Errors.{Result, ok, err}
use rediq.Redis.{Prog, ◌>>=◌, pure}
use rediq.Redis.Keyspace.{Keyspace}
use rediq.Redis.Server.{
  Server, outcome, outcome-eq-replay, replay, replay-bind, replay-then, continue,
}
use rediq.Redis.Scan.{Scans, Page, scan_match, marker, IsLast}
use rediq.Janitor.{
  JanitorConfig, cleanup_loop, cleanup_round, cleanup, clean_page, enough, end_round, matched,
  collect, delete_collected,
}
use rediq.Janitor.Pages.{expiring, collected, replay-collect}

module _ {B : Type 0} (cfg : JanitorConfig) (order : List String → List String)
    (rest : ℕ → ℕ → Prog B (Option ℕ)) where
  -- The loop goes on behind a round.
  abbrev GoesOn : ℕ → Type 0
  GoesOn next =
      (deleted : ℕ) × (ks : Keyspace B) × (enough cfg next deleted ≡ false)
      × ((replay order (rest next deleted) ks).0 ≡ ok none)

  after_page :
      (next : ℕ) (r : Result ℕ × Keyspace B)
      → (continue order (end_round cfg rest next) r).0 ≡ ok none
      → GoesOn next
  unfolding replay
  after_page next (err e, ks) h = cc
  after_page next (ok deleted, ks) h = elim (Bool-cases (enough cfg next deleted)) [
    | inl y ↦ cc (
        subst
          (λ b.
            (replay order (elim b [ true ↦ pure (some deleted) | false ↦ rest next deleted ]) ks).0
            ≡ ok none)
          y h)
    | inr n ↦ (
      deleted,
      ks,
      n,
      subst
          (λ b.
            (replay order (elim b [ true ↦ pure (some deleted) | false ↦ rest next deleted ]) ks).0
            ≡ ok none)
          n h,
    )
  ]

  after_scan :
      (next deleted : ℕ) (names : List String) (ks : Keyspace B)
      → (replay order (clean_page cfg deleted names >>= end_round cfg rest next) ks).0 ≡ ok none
      → GoesOn next
  after_scan next deleted names ks h =
      after_page next (replay order (clean_page cfg deleted names) ks) (
        sym (
          ap (λ (o : Result (Option ℕ) × Keyspace B). o.0)
            (replay-bind order (clean_page cfg deleted names) (end_round cfg rest next) ks))
        ∙ h)

  more_found :
      (more : Bool) (deleted : ℕ) (names : List String) (ks : Keyspace B)
      → (replay order (clean_page cfg deleted names >>= end_round cfg rest (marker more)) ks).0
        ≡ ok none
      → (more ≡ true) × GoesOn 1
  more_found true deleted names ks h = (refl, after_scan 1 deleted names ks h)
  more_found false deleted names ks h =
      let (d, ks', e, g) = after_scan 0 deleted names ks h in ground (arith, e)

  -- A round that does not end the loop found a page with more behind it.
  pub after_round :
      (scan : Option (Result Page)) (cursor deleted : ℕ) (ks : Keyspace B)
      → (replay order (cleanup_round cfg cursor deleted rest scan) ks).0 ≡ ok none
      → (names : List String) × (scan ≡ some (ok (record { has_more = true; results = names })))
        × GoesOn 1
  unfolding replay scan_match
  after_round none cursor deleted ks h =
      let (d, ks', e, g) = after_scan 0 deleted [] ks h in ground (arith, e)
  after_round (some (err e)) cursor deleted ks h = cc
  after_round (some (ok p)) cursor deleted ks h =
      let (e, g) = more_found p.has_more deleted p.results ks h in
      (p.results, (λ i. some (ok (record { has_more = e i; results = p.results }))), g)

module _ {B : Type 0} (cfg : JanitorConfig) (scans : Scans)
    (order : List String → List String) where
  loop_ends :
      (n i j cursor deleted : ℕ) (ks : Keyspace B)
      → i + n ≡ j
      → IsLast (scans j)
      → (replay order (cleanup_loop cfg scans (suc n) i cursor deleted) ks).0 ≢ ok none
  unfolding cleanup_loop
  loop_ends zero i j cursor deleted ks e last h =
      let (names, more, g) =
        after_round cfg order (cleanup_loop cfg scans zero (i + 1)) (scans i) cursor deleted ks h in
      let at : i ≡ j = omega arith in not_last names (subst IsLast (ap scans (sym at) ∙ more) last)
    where
      not_last :
          (names : List String)
          → IsLast (some (ok (record { has_more = true; results = names })))
          → ⊥
      not_last names l = cc
  loop_ends (suc n) i j cursor deleted ks e last h =
      let (names, more, (d, ks', t, g)) =
        after_round cfg order (cleanup_loop cfg scans (suc n) (i + 1)) (scans i) cursor deleted ks
          h in
      loop_ends n (i + 1) j 1 d ks' (omega arith) last g

-- `cleanup` ends when the first page of its n-th scan announces no further page, or that scan
-- fails, for the numbers from zero: n+1 rounds are enough.
pub cleanup_ends :
    {B : Type 0} (cfg : JanitorConfig) (scans : Scans) (n : ℕ) (s : Server B) (db : s.Db)
    → IsLast (scans n)
    → (outcome s (cleanup cfg scans (suc n)) db).0 ≢ ok none
unfolding cleanup
cleanup_ends {B} cfg scans n s db last h =
    loop_ends cfg scans s.order n 0 n 0 0 (s.view db) (omega arith) last (
      sym (
        ap (λ (o : Result (Option ℕ) × Keyspace B). o.0)
          (outcome-eq-replay s (cleanup cfg scans (suc n)) db))
      ∙ h)

-- No key that the page names is expiring.
abbrev pub NoneExpiring : {B : Type 0} → JanitorConfig → Keyspace B → List String → Type 0
NoneExpiring cfg ks [] = Unit
NoneExpiring cfg ks (n ∷ ns) = (expiring cfg (ks (matched n)) ≡ false) × NoneExpiring cfg ks ns

module _ {B : Type 0} (cfg : JanitorConfig) (names : List String) (batch : 0 < cfg.batch_size) where
  collected_nothing :
      (ks : Keyspace B) (ns : List String) → NoneExpiring cfg ks ns → collected cfg ks 0 [] ns ≡ []
  collected_nothing ks [] h = refl
  collected_nothing ks (n ∷ ns) h =
      let more : leb cfg.batch_size (0 + 0) ≡ false = ground arith in
      rw more (rw (h.0) (collected_nothing ks ns h.1))

  page_kept :
      (order : List String → List String) (ks : Keyspace B)
      → NoneExpiring cfg ks names
      → replay order (clean_page cfg 0 names) ks ≡ (ok 0, ks)
  unfolding replay delete_collected
  page_kept order ks h =
      replay-then order (collect cfg 0 [] names) (delete_collected 0) ks ks
        (collected cfg ks 0 [] names) (replay-collect cfg order 0 names [] ks)
      ∙ rw (collected_nothing ks names h) refl

  loop_endless :
      (scans : Scans) (order : List String → List String) (fuel i cursor : ℕ) (ks : Keyspace B)
      → ((n : ℕ) → scans n ≡ some (ok (record { has_more = true; results = names })))
      → NoneExpiring cfg ks names
      → replay order (cleanup_loop cfg scans fuel i cursor 0) ks ≡ (ok none, ks)
  unfolding replay cleanup_loop scan_match
  loop_endless scans order zero i cursor ks same h = refl
  loop_endless scans order (suc fuel) i cursor ks same h =
      let on : enough cfg 1 0 ≡ false = ground arith in
      rw (same i) (
        replay-then order (clean_page cfg 0 names)
          (end_round cfg (cleanup_loop cfg scans fuel (i + 1)) 1) ks ks 0 (page_kept order ks h)
        ∙ rw (on, end_round) (loop_endless scans order fuel (i + 1) 1 ks same h))

  -- If every scan gives the same first page with a further one announced, no key of which is
  -- expiring, and the batch is positive, `cleanup` does not end, however many rounds it has, and
  -- changes nothing: each scan begins at the start again.
  pub cleanup_endless :
      (scans : Scans) (fuel : ℕ) (s : Server B) (db : s.Db)
      → ((n : ℕ) → scans n ≡ some (ok (record { has_more = true; results = names })))
      → NoneExpiring cfg (s.view db) names
      → outcome s (cleanup cfg scans fuel) db ≡ (ok none, s.view db)
  unfolding cleanup
  cleanup_endless scans fuel s db same h =
      outcome-eq-replay s (cleanup cfg scans fuel) db
      ∙ loop_endless scans s.order fuel 0 0 (s.view db) same h

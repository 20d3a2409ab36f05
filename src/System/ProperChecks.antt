-- ===== src/System/ProperChecks.antt =====
-- The aggregation and the janitor send only commands that suit the types of their keys
-- (rediq/src/server/scheduler.rs, rediq/src/server/janitor.rs).
use rediq.Prelude.{
  ℕ, zero, suc, ◌+◌, leb, ltb, String, List, [], ◌∷◌, Option, none, some, refl, Bool-cases, inl,
  inr, length,
}
use rediq.Errors.{Result, ok, err}
use rediq.Redis.{Prog, Value, done}
use rediq.Redis.Client.{lasting}
use rediq.Redis.Kinds.{Proper}
use rediq.Redis.Scan.{Scans, scan_match}
use rediq.Redis.Sends.{Sends-bind}
use rediq.Task.{Task}
use rediq.Codec.{Codec, signed_in}
use rediq.Aggregator.{Aggregator, AggregatorManager, get}
use rediq.Janitor.{
  JanitorConfig, chosen, collect, delete_collected, clean_page, end_round, enough, cleanup_loop,
  cleanup,
}
use rediq.Scheduler.Aggregation.{
  as_usize, or_zero, remove_all, load_tasks, enqueue_made, combine, gathered, gather, counted_group,
  check_group, check_groups, follow, last_page, check_aggregation,
}
use rediq.System.Proper.{IsProper}

module _ (B : Type 0) where
  remove_all-IsProper : (g : String) (ids : List String) → IsProper (remove_all {B = B} g ids)
  remove_all-IsProper g [] = tt
  remove_all-IsProper g (id ∷ ids) = (refl, elim [ ok _ ↦ remove_all-IsProper g ids | err _ ↦ tt ])

  last_page-IsProper : (o : Option (Result (Unit {0}))) → IsProper (last_page {B = B} o)
  last_page-IsProper none = tt
  last_page-IsProper (some (ok _)) = tt
  last_page-IsProper (some (err e)) = tt

  delete_collected-IsProper : (d : ℕ) (ns : List String) → IsProper (delete_collected {B = B} d ns)
  unfolding delete_collected
  delete_collected-IsProper d [] = tt
  delete_collected-IsProper d (n ∷ ns) = (tt, λ r. tt)

module _ {B : Type 0} (codec : Codec B) where
  load_tasks-IsProper : (ids : List String) → IsProper (load_tasks codec ids)
  load_tasks-IsProper [] = tt
  load_tasks-IsProper (id ∷ ids) = (
    refl,
    elim [
      | ok _ ↦ Sends-bind Proper (load_tasks codec ids) _ (load_tasks-IsProper ids) (λ rest. tt)
      | err _ ↦ tt
    ],
  )

  enqueue_made-IsProper : (o : Option Task) → IsProper (enqueue_made codec o)
  enqueue_made-IsProper none = tt
  enqueue_made-IsProper (some t) =
      Sends-bind Proper (done (codec.to_vec t)) _ tt
        (λ b. (refl, elim [ ok _ ↦ (refl, elim [ ok _ ↦ tt | err _ ↦ tt ]) | err _ ↦ tt ]))

  combine-IsProper :
      (g : String) (ids : List String) (ts : List Task) (o : Option Aggregator)
      → IsProper (combine codec g ids ts o)
  combine-IsProper g ids ts none = tt
  combine-IsProper g ids ts (some agg) = Sends-bind Proper (done (agg g ts)) _ tt (λ made.
      Sends-bind Proper (remove_all {B = B} g ids) _ (remove_all-IsProper B g ids)
        (λ _. (refl, elim [ ok _ ↦ enqueue_made-IsProper made | err _ ↦ tt ])))

  gathered-IsProper :
      (m : AggregatorManager) (g : String) (ids : List String) → IsProper (gathered codec m g ids)
  gathered-IsProper m g [] = tt
  gathered-IsProper m g (id ∷ ids) =
      Sends-bind Proper (load_tasks codec (id ∷ ids)) _ (load_tasks-IsProper (id ∷ ids))
        (λ ts. combine-IsProper g (id ∷ ids) ts (get m g))

  gather-IsProper : (m : AggregatorManager) (g : String) → IsProper (gather codec m g)
  gather-IsProper m g = (refl, elim [ ok ids ↦ gathered-IsProper m g ids | err _ ↦ tt ])

  counted_group-IsProper :
      (m : AggregatorManager) (g : String) (o : Option (Value B))
      → IsProper (counted_group codec m g o)
  counted_group-IsProper m g none = tt
  counted_group-IsProper m g (some v) =
      elim (Bool-cases (ltb (as_usize (or_zero (signed_in codec v))) m.default_config.max_size)) [
        | inl y ↦ rw y tt
        | inr n ↦ rw n (gather-IsProper m g)
      ]

  check_groups-IsProper :
      (m : AggregatorManager) (gs : List String) → IsProper (check_groups codec m gs)
  unfolding check_group
  check_groups-IsProper m [] = tt
  check_groups-IsProper m (g ∷ gs) =
      Sends-bind Proper (check_group codec m g) _
        (refl, elim [ ok o ↦ counted_group-IsProper m g o | err _ ↦ tt ])
        (λ _. check_groups-IsProper m gs)

  pub check_aggregation-IsProper :
      (m : Option AggregatorManager) (scans : Scans) (fuel : ℕ)
      → IsProper (check_aggregation codec m scans fuel)
  unfolding check_aggregation
  check_aggregation-IsProper none scans fuel = tt
  check_aggregation-IsProper (some m) scans fuel =
      Sends-bind Proper (done (scan_match 0 (scans 0))) _ tt (λ (cursor, groups).
        Sends-bind Proper (check_groups codec m groups) _ (check_groups-IsProper m groups)
          (λ _. last_page-IsProper B (follow scans fuel 1 cursor)))

module _ (B : Type 0) (cfg : JanitorConfig) where
  collect-IsProper :
      (d : ℕ) (names keys : List String) → IsProper (collect {B = B} cfg d keys names)
  unfolding collect
  collect-IsProper d [] keys = tt
  collect-IsProper d (n ∷ ns) keys = elim (Bool-cases (leb cfg.batch_size (d + length keys))) [
    | inl y ↦ rw y tt
    | inr f ↦ rw f (
      tt,
      elim [
        | ok left ↦ collect-IsProper d ns (chosen cfg keys n (ok (lasting left)))
        | err e ↦ collect-IsProper d ns (chosen cfg keys n (err e))
      ],
    )
  ]

  end_round-IsProper :
      (rest : ℕ → ℕ → Prog B (Option ℕ)) (next d : ℕ)
      → IsProper (rest next d)
      → IsProper (end_round cfg rest next d)
  end_round-IsProper rest next d h = elim (Bool-cases (enough cfg next d)) [
    | inl y ↦ rw (y, end_round) tt
    | inr n ↦ rw (n, end_round) h
  ]

  cleanup_loop-IsProper :
      (scans : Scans) (fuel i cursor d : ℕ)
      → IsProper (cleanup_loop {B = B} cfg scans fuel i cursor d)
  unfolding cleanup_loop
  cleanup_loop-IsProper scans zero i cursor d = tt
  cleanup_loop-IsProper scans (suc fuel) i cursor d =
      Sends-bind Proper (done (scan_match cursor (scans i))) _ tt (λ (next, names).
        Sends-bind Proper (clean_page {B = B} cfg d names) _
          (Sends-bind Proper (collect {B = B} cfg d [] names) _ (collect-IsProper d names [])
            (delete_collected-IsProper B d))
          (λ d'.
            end_round-IsProper (cleanup_loop {B = B} cfg scans fuel (i + 1)) next d'
              (cleanup_loop-IsProper scans fuel (i + 1) next d')))

  pub cleanup-IsProper : (scans : Scans) (fuel : ℕ) → IsProper (cleanup {B = B} cfg scans fuel)
  unfolding cleanup
  cleanup-IsProper scans fuel = cleanup_loop-IsProper scans fuel 0 0 0

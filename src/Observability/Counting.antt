-- ===== src/Observability/Counting.antt =====
-- The counters count the events (rediq/src/observability/metrics.rs).
use rediq.Prelude.{
  ℕ, ◌+◌, String, str_eq, ◌&&◌, ◌≡◌, ◌≢◌, List, [], ◌∷◌, arith, eq_iff, Bool-cases, inl, inr,
  if◌then◌else◌,
}
use rediq.Observability.{
  Prometheus, RediqMetrics, record_task_enqueued, record_task_processed, record_task_failed,
  record_task_retried,
}

-- What is recorded of a task: its queue and type, and how long it took or how it failed.
pub data Event (O : Type 0) : Type 0 where
  enqueued retried : String → String → Event O
  processed : String → String → O → Event O
  failed : String → String → String → Event O

module _ {V G H O : Type 0} (p : Prometheus V G H O) where
  abbrev pub record_event : Event O → RediqMetrics V G H → RediqMetrics V G H
  record_event (enqueued q t) m = record_task_enqueued p m q t
  record_event (retried q t) m = record_task_retried p m q t
  record_event (processed q t d) m = record_task_processed p m q t d
  record_event (failed q t e) m = record_task_failed p m q t e

  abbrev pub record_events : List (Event O) → RediqMetrics V G H → RediqMetrics V G H
  record_events [] m = m
  record_events (e ∷ es) m = record_events es (record_event e m)

abbrev pub is_processed : {O : Type 0} → String → String → Event O → ℕ
is_processed q t (processed r u d) = if str_eq r q && str_eq u t then 1 else 0
is_processed q t (enqueued r u) = 0
is_processed q t (retried r u) = 0
is_processed q t (failed r u e) = 0

-- How many of the events are of processed tasks of the queue and the type.
abbrev pub processed_in : {O : Type 0} → String → String → List (Event O) → ℕ
processed_in q t [] = 0
processed_in q t (e ∷ es) = is_processed q t e + processed_in q t es

module _ {V G H O : Type 0} (p : Prometheus V G H O) (q t : String) where
  counted_once :
      (r u : String) (v : V)
      → p.counters.value (q ∷ t ∷ []) (p.counters.inc (r ∷ u ∷ []) v)
        ≡ (if str_eq r q && str_eq u t then 1 else 0) + p.counters.value (q ∷ t ∷ []) v
  counted_once r u v = elim (Bool-cases (str_eq r q)) [
    | inl d ↦ elim (Bool-cases (str_eq u t)) [
      | inl e ↦
          let one : r ≡ q = (eq_iff r q).0 d in
          let two : u ≡ t = (eq_iff u t).0 e in
          rw (d, e, one, two) (omega (arith, p.counters.value-inc_self (q ∷ t ∷ []) v))
      | inr e ↦
          let other : (r ∷ u ∷ []) ≢ (q ∷ t ∷ []) =
            λ c. let two : u ≡ t = cc in ground (arith, (eq_iff u t).1 two) in
          rw (d, e) (omega (arith, p.counters.value-inc_other (r ∷ u ∷ []) (q ∷ t ∷ []) v other))
    ]
    | inr d ↦
        let other : (r ∷ u ∷ []) ≢ (q ∷ t ∷ []) =
          λ c. let one : r ≡ q = cc in ground (arith, (eq_iff r q).1 one) in
        rw d (omega (arith, p.counters.value-inc_other (r ∷ u ∷ []) (q ∷ t ∷ []) v other))
  ]

  -- After any recorded events of enqueued, retried, processed and failed tasks, the counter of
  -- processed tasks of a queue and a type has grown by the number of the events that are of
  -- processed tasks of both.
  pub tasks_processed_total_counts :
      (es : List (Event O)) (m : RediqMetrics V G H)
      → p.counters.value (q ∷ t ∷ []) (record_events p es m).tasks_processed_total
        ≡ processed_in q t es + p.counters.value (q ∷ t ∷ []) m.tasks_processed_total
  unfolding record_task_enqueued record_task_processed record_task_failed record_task_retried
  tasks_processed_total_counts [] m = omega arith
  tasks_processed_total_counts (enqueued r u ∷ es) m =
      omega (arith, tasks_processed_total_counts es (record_event p (enqueued r u) m))
  tasks_processed_total_counts (retried r u ∷ es) m =
      omega (arith, tasks_processed_total_counts es (record_event p (retried r u) m))
  tasks_processed_total_counts (failed r u e ∷ es) m =
      omega (arith, tasks_processed_total_counts es (record_event p (failed r u e) m))
  tasks_processed_total_counts (processed r u d ∷ es) m = omega (
    arith,
    tasks_processed_total_counts es (record_event p (processed r u d) m),
    counted_once r u m.tasks_processed_total,
  )

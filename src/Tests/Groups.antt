-- ===== src/Tests/Groups.antt =====
-- The theorems on groups of tasks, the inspector, the metrics and middleware at concrete data.
use rediq.Prelude.{
  ℕ, ◌+◌, pos, ℤ, String, ◌≡◌, refl, ap, some, none, List, [], ◌∷◌, arith, str_eq, if◌then◌else◌,
  Bool, true, false, ◌&&◌, eq_refl, eq_iff, Bool-cases, inl, inr,
}
use rediq.Errors.{Result, ok}
use rediq.Keys.{Family, key}
use rediq.Redis.{◌>>◌, number}
use rediq.Redis.Kinds.{IsTyped, put-IsTyped}
use rediq.Redis.Keyspace.{Keyspace, zset, hash, put, as_list}
use rediq.Redis.Server.{outcome, memory, empty}
use rediq.Aggregator.{
  AggregatorManager, first_task, new_manager, register, set_default_config, default_aggregator,
  with_max_size,
}
use rediq.Scheduler.Aggregation.{check_group}
use rediq.Scheduler.Aggregation.Groups
use rediq.Inspector.{QueueStats, queue_stats, get_task_progress, stop_worker}
use rediq.Inspector.Looking
use rediq.Inspector.Stopping
use rediq.Progress.{new_progress, default_progress, report_with_message, ProgressContext}
use rediq.Worker.Membership.{update_heartbeat}
use rediq.Middleware.{
  logging, new_logging, metrics, new_chain, add, chain_before, chain_after, go_on,
}
use rediq.Middleware.Hooks
use rediq.Observability.{CounterVec, Prometheus, RediqMetrics}
use rediq.Observability.Counting
use rediq.Observability.Counting.{record_events, processed_in, Event, processed, failed}
use rediq.Tests.Samples.{Blob, packed, codec, mail, letter, with_letters}

-- Two tasks are in a group, and two are enough.
abbrev with_group : Keyspace Blob
with_group =
    put
      (put with_letters (key Family.meta_group "daily")
        (some (hash (("count", number 2) ∷ []), none)))
      (key Family.group "daily") (some (zset (("a1", pos 1) ∷ ("b2", pos 2) ∷ []), none))

with_group-IsTyped : IsTyped with_group
with_group-IsTyped = put-IsTyped _ (key Family.group "daily") _ refl (
    put-IsTyped with_letters (key Family.meta_group "daily") _ refl (
      put-IsTyped _ (key Family.task "b2") _ refl (
        put-IsTyped _ (key Family.task "a1") _ refl
          (put-IsTyped empty (key Family.queue "mail") _ refl (λ k. tt)))))

abbrev manager : AggregatorManager
manager = record {
  aggregators = ("daily", first_task) ∷ [];
  default_config = record default_aggregator { max_size = 2 };
}

-- The last task of the group comes to the end of the queue.
check_group_aggregates_example :
    as_list
      ((outcome memory (check_group codec manager "daily") with_group).1 (key Family.queue "mail"))
    ≡ some ("a1" ∷ "b2" ∷ "b2" ∷ [])
unfolding first_task rediq.Aggregator.get
check_group_aggregates_example =
    ap (λ (o : Result (Unit {0}) × Keyspace Blob). as_list (o.1 (key Family.queue "mail")))
      (Groups.check_group_aggregates codec memory with_group manager "daily"
        (("count", number 2) ∷ []) 2 refl refl (omega arith) "a1" (pos 1) (("b2", pos 2) ∷ [])
        first_task (omega arith) refl refl with_group-IsTyped letter (packed letter) _
        ("a1" ∷ "b2" ∷ []) refl refl refl refl)

queue_stats_counts_example :
    (outcome memory (queue_stats codec "mail") with_letters).0
    ≡ ok (record {
      name = "mail";
      pending = 2;
      active = 0;
      delayed = 0;
      retried = 0;
      dead = 0;
      completed = 0;
    })
queue_stats_counts_example =
    ap (λ (o : Result QueueStats × Keyspace Blob). o.0)
      (Looking.queue_stats_counts codec memory with_letters "mail" ("a1" ∷ "b2" ∷ []) [] [] [] [] []
        refl refl refl refl refl refl)

abbrev watched : ProgressContext
watched = new_progress "a1" default_progress 5000

report-get_task_progress_example :
    (outcome memory
      (do report_with_message watched 40 (some "half") 5000 100; get_task_progress codec "a1")
      (empty {B = Blob})).0
    ≡ ok (some (record { current = 40; message = some "half"; updated_at = pos 100 }))
report-get_task_progress_example =
    Looking.report-get_task_progress codec memory empty watched 40 5000 100 3599 (some "half") refl
      (omega arith) (omega arith) refl (omega arith)

stop_worker-update_heartbeat_example :
    outcome memory (do stop_worker "w"; update_heartbeat "w" 60 100) (empty {B = Blob})
    ≡ outcome memory (update_heartbeat "w" 60 100) empty
stop_worker-update_heartbeat_example = Stopping.stop_worker-update_heartbeat memory empty "w" 59 100

chain-add_example :
    (chain_before (add (add new_chain (logging new_logging)) metrics) mail []
      ≡ go_on (metrics.before mail) (chain_before (add new_chain (logging new_logging)) mail []))
    × (chain_after (add (add new_chain (logging new_logging)) metrics) mail (ok tt) []
        ≡ go_on
            (metrics.after mail (ok tt))
            (chain_after (add new_chain (logging new_logging)) mail (ok tt) []))
chain-add_example = Hooks.chain-add (add new_chain (logging new_logging)) metrics mail (ok tt) []

-- Labels are the same when all of them are.
abbrev same_labels : List String → List String → Bool
same_labels [] [] = true
same_labels [] (b ∷ k) = false
same_labels (a ∷ l) [] = false
same_labels (a ∷ l) (b ∷ k) = str_eq a b && same_labels l k

same_labels_refl : (l : List String) → same_labels l l ≡ true
same_labels_refl [] = refl
same_labels_refl (a ∷ l) = rw (eq_refl a) (same_labels_refl l)

same_labels-true : (l k : List String) → same_labels l k ≡ true → l ≡ k
same_labels-true [] [] e = refl
same_labels-true [] (b ∷ k) e = cc
same_labels-true (a ∷ l) [] e = cc
same_labels-true (a ∷ l) (b ∷ k) e =
    let one : str_eq a b ≡ true = ground (arith, e) in
    let rest : l ≡ k = same_labels-true l k (ground (arith, e)) in
    let first : a ≡ b = (eq_iff a b).0 one in cc

-- Counters as functions of their labels.
abbrev tallies : CounterVec (List String → ℕ)
tallies = record {
  inc = λ l v k. if same_labels l k then v k + 1 else v k;
  value = λ l v. v l;
  value-inc_self = λ l v. rw (same_labels_refl l) refl;
  value-inc_other = λ l k v n. elim (Bool-cases (same_labels l k)) [
    | inl y ↦ absurd (n (same_labels-true l k y))
    | inr f ↦ rw f refl
  ];
}

abbrev prometheus : Prometheus (List String → ℕ) (List ℤ) (List ℕ) ℕ
prometheus = record { counters = tallies; set = λ l z g. z ∷ g; observe = λ l x h. x ∷ h }

abbrev no_metrics : RediqMetrics (List String → ℕ) (List ℤ) (List ℕ)
no_metrics = record {
  tasks_enqueued_total = λ l. 0;
  tasks_processed_total = λ l. 0;
  tasks_failed_total = λ l. 0;
  tasks_retried_total = λ l. 0;
  task_duration_seconds = [];
  queue_pending_tasks = [];
  queue_active_tasks = [];
  queue_delayed_tasks = [];
  queue_retry_tasks = [];
  queue_dead_tasks = [];
  worker_heartbeat = [];
}

-- Two tasks of the type are processed, and one of them on another queue.
abbrev noted : List (Event ℕ)
noted =
    processed "mail" "email:send" 7
    ∷ failed "mail" "email:send" "timeout"
    ∷ processed "bulk" "email:send" 9
    ∷ []

tasks_processed_total_counts_example :
    (record_events prometheus noted no_metrics).tasks_processed_total ("mail" ∷ "email:send" ∷ [])
    ≡ 1
tasks_processed_total_counts_example =
    Counting.tasks_processed_total_counts prometheus "mail" "email:send" noted no_metrics

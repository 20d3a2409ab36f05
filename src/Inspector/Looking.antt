-- ===== src/Inspector/Looking.antt =====
-- What the inspector sees (rediq/src/client/mod.rs) of what clients and workers write
-- (rediq/src/client/builder.rs, rediq/src/progress/mod.rs).
use rediq.Prelude.{
  ℕ, suc, ◌-◌, ◌^◌, ◌<◌, ◌≤◌, ℤ, pos, String, ◌≡◌, ap, ◌∙◌, Option, none, some, List, length, arith,
  eq_refl,
}
use rediq.Errors.{Result, ok}
use rediq.Keys.{Family, key}
use rediq.Redis.{Value, ◌>>◌}
use rediq.Redis.Keyspace.{Keyspace, effect, as_list, as_zset, as_hash, scored, field}
use rediq.Redis.Server.{Server, outcome, outcome-eq-replay, replay}
use rediq.Codec.{Codec}
use rediq.Progress.{ProgressContext, report_with_message}
use rediq.Inspector.{TaskProgress, get_task_progress, queue_stats, completed_in}

module _ {B : Type 0} (codec : Codec B) (s : Server B) (db : s.Db) (queue : String) where
  -- `queue_stats` on readable keys counts the members of the queue's list, of its active and of
  -- its dead tasks, and of its delayed and retried tasks with a score from 0 up, takes the
  -- completed ones from the queue's statistics, and changes nothing.
  pub queue_stats_counts :
      (pending active dead : List String) (delayed retried : List (String × ℤ))
      (h : List (String × Value B))
      → as_list (s.view db (key Family.queue queue)) ≡ some pending
      → as_list (s.view db (key Family.active queue)) ≡ some active
      → as_zset (s.view db (key Family.delayed queue)) ≡ some delayed
      → as_zset (s.view db (key Family.retry queue)) ≡ some retried
      → as_list (s.view db (key Family.dead queue)) ≡ some dead
      → as_hash (s.view db (key Family.stats queue)) ≡ some h
      → outcome s (queue_stats codec queue) db ≡ (
        ok (record {
          name = queue;
          pending = length pending;
          active = length active;
          delayed = length (scored (some (pos 0)) (pos (2 ^ 63 - 1)) delayed);
          retried = length (scored (some (pos 0)) (pos (2 ^ 63 - 1)) retried);
          dead = length dead;
          completed = completed_in codec (ok (field "processed" h));
        }),
        s.view db,
      )
  unfolding replay effect queue_stats
  queue_stats_counts pending active dead delayed retried h p a d r x c =
      outcome-eq-replay s (queue_stats codec queue) db ∙ ground (arith, p, a, d, r, x, c)

module _ {B : Type 0} (codec : Codec B) (s : Server B) (db : s.Db) (ctx : ProgressContext)
    (current : ℕ) (instant now ttl : ℕ) where
  -- What a progress report writes where no progress was stored, with a value of 100 at most,
  -- behind the throttle and with a positive expiry, at a time below 2^63, is what the inspector
  -- reads: the value, the message and the time.
  pub report-get_task_progress :
      (message : Option String)
      → s.view db (key Family.progress ctx.task_id) ≡ none
      → current ≤ 100
      → ctx.config.throttle_ms ≤ instant - ctx.last_update
      → ctx.config.ttl_secs ≡ suc ttl
      → now < 2 ^ 63
      → (outcome s
          (do
            report_with_message ctx current message instant now
            get_task_progress codec ctx.task_id)
          db).0
        ≡ ok (some (record { current = current; message = message; updated_at = pos now }))
  unfolding replay effect get_task_progress report_with_message
  report-get_task_progress none f c t l b =
      ap (λ (o : Result (Option TaskProgress) × Keyspace B). o.0)
        (outcome-eq-replay s
          (do report_with_message ctx current none instant now; get_task_progress codec ctx.task_id)
          db)
      ∙ ground (arith, f, eq_refl ctx.task_id)
  report-get_task_progress (some m) f c t l b =
      ap (λ (o : Result (Option TaskProgress) × Keyspace B). o.0)
        (outcome-eq-replay s
          (do
            report_with_message ctx current (some m) instant now
            get_task_progress codec ctx.task_id)
          db)
      ∙ ground (arith, f, eq_refl ctx.task_id)

-- ===== src/Scheduler/Aggregation.antt =====
-- `check_aggregation` of the scheduler (rediq/src/server/scheduler.rs). The first page of each scan is
-- an argument, as is the fuel of the loop over further pages: `none` means that it has not ended.
pub mod Groups
pub mod Paging
use rediq.Prelude.{
  ℕ, zero, suc, ◌+◌, ◌-◌, ◌^◌, ltb, ℤ, pos, negsuc, String, Bool, true, false, Option, none, some,
  List, [], ◌∷◌, snoc, if◌then◌else◌,
}
use rediq.Errors.{Result, ok, err}
use rediq.Keys.{Family, key}
use rediq.Redis.{Value, text, number, bytes, Prog, done, pure, ◌>>=◌, ◌>>◌}
use rediq.Redis.Client.{hget, hset, zrange, zrem, rpush}
use rediq.Redis.Scan.{Scans, Page, scan_match}
use rediq.Task.{Task}
use rediq.Codec.{Codec, signed_in}
use rediq.Aggregator.{Aggregator, AggregatorManager, get}

-- `as usize` on an i64.
abbrev pub as_usize : ℤ → ℕ
as_usize (pos n) = n
as_usize (negsuc n) = 2 ^ 64 - 1 - n

abbrev pub or_zero : Option ℤ → ℤ
or_zero none = pos 0
or_zero (some z) = z

module _ {B : Type 0} where
  abbrev pub remove_all : String → List String → Prog B (Unit {0})
  remove_all group [] = pure tt
  remove_all group (id ∷ ids) = do zrem (key Family.group group) id; remove_all group ids

module _ {B : Type 0} (codec : Codec B) where
  -- The task of a value that HGET gave, if it unpacks.
  abbrev pub unpacked : Result Task → List Task → List Task
  unpacked (ok t) ts = t ∷ ts
  unpacked (err _) ts = ts

  abbrev pub unpacked_bytes : Option B → List Task → List Task
  unpacked_bytes none ts = ts
  unpacked_bytes (some b) ts = unpacked (codec.from_slice b) ts

  abbrev pub unpacked_found : Option (Value B) → List Task → List Task
  unpacked_found none ts = ts
  unpacked_found (some v) ts = unpacked_bytes (codec.as_bytes v) ts

  abbrev pub load_tasks : List String → Prog B (List Task)
  load_tasks [] = pure []
  load_tasks (id ∷ ids) = do
    found ← hget (key Family.task id) "data"
    rest ← load_tasks ids
    pure (unpacked_found found rest)

  abbrev pub enqueue_made : Option Task → Prog B (Unit {0})
  enqueue_made none = pure tt
  enqueue_made (some t) = do
    packed ← done (codec.to_vec t)
    hset (key Family.task t.id) (("data", bytes packed) ∷ ("queue", text t.queue) ∷ [])
    rpush (key Family.queue t.queue) t.id
    pure tt

  abbrev pub combine : String → List String → List Task → Option Aggregator → Prog B (Unit {0})
  combine group ids tasks none = pure tt
  combine group ids tasks (some agg) = do
    made ← done (agg group tasks)
    remove_all group ids
    hset (key Family.meta_group group) (("count", number 0) ∷ [])
    enqueue_made made

  abbrev pub gathered : AggregatorManager → String → List String → Prog B (Unit {0})
  gathered m group [] = pure tt
  gathered m group (id ∷ ids) = do
    tasks ← load_tasks (id ∷ ids)
    combine group (id ∷ ids) tasks (get m group)

  abbrev pub gather : AggregatorManager → String → Prog B (Unit {0})
  gather m group = do ids ← zrange (key Family.group group) 0 (negsuc 0); gathered m group ids

  abbrev pub counted_group : AggregatorManager → String → Option (Value B) → Prog B (Unit {0})
  counted_group m group none = pure tt
  counted_group m group (some v) =
      if ltb (as_usize (or_zero (signed_in codec v))) m.default_config.max_size
      then pure tt
      else gather m group

  -- One round of the loop over the groups.
  unfoldable pub check_group : AggregatorManager → String → Prog B (Unit {0})
  check_group m group = do
    found ← hget (key Family.meta_group group) "count"
    counted_group m group found

  abbrev pub check_groups : AggregatorManager → List String → Prog B (Unit {0})
  check_groups m [] = pure tt
  check_groups m (group ∷ groups) = do check_group m group; check_groups m groups

-- The loop over further pages, `i` scans having been made. The groups of these pages are not looked at.
abbrev pub followed :
    (ℕ → Option (Result (Unit {0}))) → Result (ℕ × List String) → Option (Result (Unit {0}))
followed rest (ok (next, more_keys)) = rest next
followed rest (err e) = some (err e)

unfoldable pub follow : Scans → ℕ → ℕ → ℕ → Option (Result (Unit {0}))
follow scans zero i cursor = none
follow scans (suc fuel) i zero = some (ok tt)
follow scans (suc fuel) i (suc c) =
    followed (follow scans fuel (i + 1)) (scan_match (suc c) (scans i))

abbrev pub last_page : {B : Type 0} → Option (Result (Unit {0})) → Prog B (Option (Unit {0}))
last_page none = pure none
last_page (some (ok _)) = pure (some tt)
last_page (some (err e)) = done (err e)

module _ {B : Type 0} (codec : Codec B) where
  unfoldable pub check_aggregation :
      Option AggregatorManager → Scans → ℕ → Prog B (Option (Unit {0}))
  check_aggregation none scans fuel = pure (some tt)
  check_aggregation (some m) scans fuel = do
    (cursor, groups) ← done (scan_match 0 (scans 0))
    check_groups codec m groups
    last_page (follow scans fuel 1 cursor)

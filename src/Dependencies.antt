-- ===== src/Dependencies.antt =====
-- storage/dependencies.rs (rediq/src/storage/dependencies.rs): tasks that wait for other tasks.
pub mod Readiness
pub mod Failure
use Prim.Native.String.{◌++◌}
use rediq.Prelude.{ℕ, ◌+◌, ◌==◌, Bool, String, Option, none, some, List, [], ◌∷◌, if◌then◌else◌}
use rediq.Errors.{Result, ok, err}
use rediq.Keys.{Key, Family, key}
use rediq.Redis.{Value, text, bytes, Prog, done, pure, attempt, ◌>>=◌, ◌>>◌}
use rediq.Redis.Client.{sadd, srem, smembers, scard, hget, hset, rpush, lpush, del}
use rediq.Task.{Task, TaskStatus}
use rediq.Codec.{Codec}

module _ {B : Type 0} where
  unfoldable pub register_each : String → List String → Prog B (Unit {0})
  register_each task_id [] = pure tt
  register_each task_id (dep ∷ deps) = do
    sadd (key Family.pending_deps task_id) dep
    sadd (key Family.task_deps dep) task_id
    register_each task_id deps

  unfoldable pub register : String → List String → Prog B (Unit {0})
  register task_id [] = pure tt
  register task_id (dep ∷ deps) = register_each task_id (dep ∷ deps)

-- The count of a dependent is 1 if it was enqueued.
module _ {B : Type 0} (codec : Codec B) where
  abbrev pub push_ready : String → String → Prog B ℕ
  push_ready dependent queue = do
    r ← attempt (rpush (key Family.queue queue) dependent)
    elim r [
      | ok _ ↦ do attempt (del (key Family.pending_deps dependent ∷ [])); pure 1
      | err _ ↦ pure 0
    ]

  abbrev pub push_named : String → Option B → Prog B ℕ
  push_named dependent none = do attempt (del (key Family.pending_deps dependent ∷ [])); pure 0
  push_named dependent (some b) = do queue ← done (codec.from_utf8 b); push_ready dependent queue

  abbrev pub push_found : String → Option (Value B) → Prog B ℕ
  push_found dependent none = do attempt (del (key Family.pending_deps dependent ∷ [])); pure 0
  push_found dependent (some v) = push_named dependent (codec.as_bytes v)

  abbrev pub push_dependent : String → Prog B ℕ
  push_dependent dependent = do
    queue ← hget (key Family.task dependent) "queue"
    push_found dependent queue

  unfoldable pub check_one : String → String → Prog B ℕ
  check_one completed dependent = do
    srem (key Family.pending_deps dependent) completed
    remaining ← scard (key Family.pending_deps dependent)
    if remaining == 0 then push_dependent dependent else pure 0

  unfoldable pub check_each : String → List String → Prog B ℕ
  check_each completed [] = pure 0
  check_each completed (dependent ∷ rest) = do
    here ← check_one completed dependent
    there ← check_each completed rest
    pure (here + there)

  abbrev pub check_found : String → List String → Prog B ℕ
  check_found completed [] = pure 0
  check_found completed (dependent ∷ rest) = do
    enqueued ← check_each completed (dependent ∷ rest)
    del (key Family.task_deps completed ∷ [])
    pure enqueued

  unfoldable pub check_dependents : String → Prog B ℕ
  check_dependents completed = do
    dependents ← smembers (key Family.task_deps completed)
    check_found completed dependents

-- What becomes of one dependent: `continue` skips the clean-up behind the match.
pub data Failing : Type 0 where
  skipped : Failing
  counted : ℕ → Failing

abbrev pub failed_dependent : String → Task → Task
failed_dependent failed t = record t {
  status = TaskStatus.dead;
  last_error = some ("Dependency task " ++ failed ++ " failed permanently");
}

module _ {B : Type 0} (codec : Codec B) where
  abbrev pub bury_pushed : Result ℕ → Prog B Failing
  bury_pushed (ok _) = pure (counted 1)
  bury_pushed (err _) = pure skipped

  abbrev pub bury_stored : String → String → Result Bool → Prog B Failing
  bury_stored queue dependent (ok _) = do
    r ← attempt (lpush (key Family.dead queue) dependent)
    bury_pushed r
  bury_stored queue dependent (err _) = pure skipped

  abbrev pub bury_packed : String → String → Result B → Prog B Failing
  bury_packed queue dependent (err _) = pure (counted 0)
  bury_packed queue dependent (ok b) = do
    r ← attempt (hset (key Family.task dependent) (("data", bytes b) ∷ ("queue", text queue) ∷ []))
    bury_stored queue dependent r

  abbrev pub bury_unpacked : String → String → String → Result Task → Prog B Failing
  bury_unpacked failed queue dependent (err _) = pure (counted 0)
  bury_unpacked failed queue dependent (ok t) =
      bury_packed queue dependent (codec.to_vec (failed_dependent failed t))

  abbrev pub bury_bytes : String → String → String → Option B → Prog B Failing
  bury_bytes failed queue dependent none = pure (counted 0)
  bury_bytes failed queue dependent (some b) =
      bury_unpacked failed queue dependent (codec.from_slice b)

  abbrev pub bury_found : String → String → String → Option (Value B) → Prog B Failing
  bury_found failed queue dependent none = pure (counted 0)
  bury_found failed queue dependent (some v) = bury_bytes failed queue dependent (codec.as_bytes v)

  abbrev pub clean_up : String → Failing → Prog B ℕ
  clean_up dependent skipped = pure 0
  clean_up dependent (counted n) = do attempt (del (key Family.pending_deps dependent ∷ [])); pure n

  unfoldable pub fail_one : String → String → String → Prog B ℕ
  fail_one failed queue dependent = do
    found ← hget (key Family.task dependent) "data"
    buried ← bury_found failed queue dependent found
    clean_up dependent buried

  unfoldable pub fail_each : String → String → List String → Prog B ℕ
  fail_each failed queue [] = pure 0
  fail_each failed queue (dependent ∷ rest) = do
    here ← fail_one failed queue dependent
    there ← fail_each failed queue rest
    pure (here + there)

  abbrev pub fail_found : String → String → List String → Prog B ℕ
  fail_found failed queue [] = pure 0
  fail_found failed queue (dependent ∷ rest) = do
    count ← fail_each failed queue (dependent ∷ rest)
    attempt (del (key Family.task_deps failed ∷ []))
    pure count

  unfoldable pub fail_dependents : String → String → Prog B ℕ
  fail_dependents failed queue = do
    dependents ← smembers (key Family.task_deps failed)
    fail_found failed queue dependents

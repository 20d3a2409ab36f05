-- ===== src/Tests/Samples.antt =====
-- A codec that keeps values as they are, a task, and the data of a small system.
use rediq.Prelude.{arith, ℕ, ℤ, pos, String, refl, Option, none, some, List, [], ◌∷◌}
use rediq.Errors.{Result, ok, err, serialization, Error, handler}
use rediq.Keys.{Family, key}
use rediq.Redis.{Value, text, number, bytes}
use rediq.Redis.Keyspace.{Entry, string, list, set, zset, hash, Keyspace, put}
use rediq.Redis.Server.{empty}
use rediq.Task.{Task, TaskOptions, TaskStatus, default_options, from_secs}
use rediq.Codec.{Codec, IsFaithful, WorkerMetadata}

-- Bytes that remember what they stand for.
pub data Blob : Type 0 where
  packed : Task → Blob
  profile : WorkerMetadata → Blob
  plain : String → Blob

abbrev unpack : Blob → Result Task
unpack (packed t) = ok t
unpack _ = err (serialization "not a task")

abbrev unpack_profile : Blob → Result WorkerMetadata
unpack_profile (profile m) = ok m
unpack_profile _ = err (serialization "not a worker")

abbrev unpack_text : Blob → Result String
unpack_text (plain s) = ok s
unpack_text _ = err (serialization "not a text")

abbrev bytes_of : Value Blob → Option Blob
bytes_of (bytes b) = some b
bytes_of (text s) = some (plain s)
bytes_of (number n) = none

abbrev pub codec : Codec Blob
codec = record {
  to_vec = λ t. ok (packed t);
  from_slice = unpack;
  worker_to_vec = λ m. ok (profile m);
  worker_from_slice = unpack_profile;
  as_bytes = bytes_of;
  utf8 = plain;
  from_utf8 = unpack_text;
}

-- The assumed laws of a codec hold for it.
pub codec-IsFaithful : IsFaithful codec
codec-IsFaithful = record {
  packs = λ t. (packed t, refl);
  unpacks = λ t b e. ground (arith, e);
  worker_packs = λ m. (profile m, refl);
  worker_unpacks = λ m b e. ground (arith, e);
  as_bytes-bytes = λ b. refl;
  as_bytes-text = λ s. refl;
  from_utf8-utf8 = λ s. refl;
}

abbrev pub mail : Task
mail = record {
  id = "a1";
  task_type = "email:send";
  queue = "mail";
  payload = 123 ∷ 125 ∷ [];
  options = default_options;
  status = TaskStatus.pending;
  created_at = 90;
  enqueued_at = none;
  processed_at = none;
  retry_cnt = 0;
  last_error = none;
}

abbrev pub letter : Task
letter = record mail { id = "b2" }

abbrev pub with_options : TaskOptions → Task
with_options o = record mail { options = o }

abbrev pub unique_mail : Task
unique_mail = with_options (record default_options { unique_key = some "once" })

abbrev pub urgent_mail : Task
urgent_mail = with_options (record default_options { priority = pos 7 })

abbrev pub urgent_unique_mail : Task
urgent_unique_mail =
    with_options (record default_options { priority = pos 7; unique_key = some "once" })

abbrev pub delayed_mail : Task
delayed_mail = with_options (record default_options { delay = some (from_secs 60) })

abbrev pub details_of : Task → Option (Entry Blob × Option ℕ)
details_of t = some (hash (("data", bytes (packed t)) ∷ ("queue", text t.queue) ∷ []), some 86400)

-- The key "once" is taken in the queue.
abbrev pub with_claim : Keyspace Blob
with_claim = put empty (key Family.dedup "mail") (some (set ("once" ∷ []), none))

-- One task waits.
abbrev pub with_waiting : Keyspace Blob
with_waiting =
    put (put empty (key Family.queue "mail") (some (list ("a1" ∷ "b2" ∷ []), none)))
      (key Family.task "a1") (details_of mail)

-- A worker holds the task.
abbrev pub with_active : Keyspace Blob
with_active =
    put (put empty (key Family.active "mail") (some (list ("a1" ∷ []), none)))
      (key Family.task "a1") (details_of mail)

abbrev pub worker : WorkerMetadata
worker = record {
  id = "w";
  server_name = "main";
  queues = "mail" ∷ [];
  started_at = 10;
  last_heartbeat = 20;
  processed_total = 4;
  status = "idle";
}

abbrev pub with_worker : Keyspace Blob
with_worker =
    put with_active (key Family.meta_worker "w") (some (string (bytes (profile worker)), none))

-- Two tasks are ranked, the second of them after the first.
abbrev pub with_ranks : Keyspace Blob
with_ranks =
    put
      (put empty (key Family.priority_queue "mail")
        (some (zset (("a1", pos 7) ∷ ("b2", pos 90) ∷ []), none)))
      (key Family.task "a1") (details_of mail)

-- Two tasks are delayed, and one of them is due at 100.
abbrev pub ranks_delayed : List (String × ℤ)
ranks_delayed = ("a1", pos 60) ∷ ("b2", pos 160) ∷ []

abbrev pub with_delayed : Keyspace Blob
with_delayed = put empty (key Family.delayed "mail") (some (zset ranks_delayed, none))

-- "a1" waits for "p" only, and "b2" for two tasks.
abbrev pub with_pending : Keyspace Blob
with_pending =
    put
      (put (put empty (key Family.pending_deps "a1") (some (set ("p" ∷ []), none)))
        (key Family.pending_deps "b2") (some (set ("p" ∷ "q" ∷ []), none)))
      (key Family.task "a1") (details_of mail)

-- A task is dead.
abbrev pub with_dead : Keyspace Blob
with_dead =
    put (put empty (key Family.dead "mail") (some (list ("z" ∷ "a1" ∷ []), none)))
      (key Family.task "a1") (details_of mail)

-- A cron task is due, and its details are stored as `enqueue_cron` stores them.
abbrev pub with_cron : Keyspace Blob
with_cron =
    put (put empty (key Family.cron_queue "mail") (some (zset (("a1", pos 60) ∷ []), none)))
      (key Family.task "a1") (details_of mail)

abbrev pub broken : Error
broken = handler "no connection"

-- Two tasks wait.
abbrev pub with_letters : Keyspace Blob
with_letters =
    put
      (put (put empty (key Family.queue "mail") (some (list ("a1" ∷ "b2" ∷ []), none)))
        (key Family.task "a1") (details_of mail))
      (key Family.task "b2") (details_of letter)

-- ===== src/Client/Batch.antt =====
-- `enqueue_batch` (rediq/src/client/builder.rs). The order in which the hash set of the queues is
-- gone through is a parameter.
pub mod Reading
use rediq.Prelude.{ℕ, String, Option, none, some, List, [], ◌∷◌, ◌++◌, contains, if◌then◌else◌}
use rediq.Keys.{Family, key}
use rediq.Redis.{bytes, Prog, done, pure, ◌>>=◌, ◌>>◌}
use rediq.Redis.Pipeline.{
  Pipeline, no_commands, with_set, with_rpush, with_sadd, with_expire, execute,
}
use rediq.Config.{RediqConfig}
use rediq.Task.{Task}
use rediq.Codec.{Codec}

-- What the loop over the tasks collects: the identifiers, the commands and the queues.
pub record Batch (B : Type 0) : Type 0 where
  pub task_ids : List String
  pub pipeline : Pipeline B
  pub registered_queues : List String

module _ {B : Type 0} where
  abbrev pub no_tasks : Batch B
  no_tasks = record { task_ids = []; pipeline = no_commands; registered_queues = [] }

  abbrev pub with_claim : Pipeline B → String → Option String → Pipeline B
  with_claim p queue none = p
  with_claim p queue (some unique) = with_sadd p (key Family.dedup queue) unique

  abbrev pub with_task : RediqConfig → Batch B → Task → B → Batch B
  with_task cfg b t packed = record {
    task_ids = b.task_ids ++ t.id ∷ [];
    pipeline =
        with_claim
          (with_rpush
            (with_expire (with_set b.pipeline (key Family.task t.id) (bytes packed))
              (key Family.task t.id) cfg.task_ttl)
            (key Family.queue t.queue) t.id)
          t.queue t.options.unique_key;
    registered_queues =
        if contains b.registered_queues t.queue
        then b.registered_queues
        else b.registered_queues ++ t.queue ∷ [];
  }

  abbrev pub register_queues : Pipeline B → List String → Pipeline B
  register_queues p [] = p
  register_queues p (queue ∷ queues) =
      register_queues (with_sadd p (key Family.meta_queues "") queue) queues

  abbrev pub register_all : List String → Prog B (Unit {0})
  register_all [] = pure tt
  register_all (queue ∷ queues) = execute (register_queues no_commands (queue ∷ queues))

module _ {B : Type 0} (codec : Codec B) (cfg : RediqConfig)
    (iteration : List String → List String) where
  abbrev pub collect : Batch B → List Task → Prog B (Batch B)
  collect b [] = pure b
  collect b (t ∷ ts) = do packed ← done (codec.to_vec t); collect (with_task cfg b t packed) ts

  abbrev pub enqueue_some : List Task → Prog B (List String)
  enqueue_some tasks = do
    b ← collect no_tasks tasks
    execute b.pipeline
    register_all (iteration b.registered_queues)
    pure b.task_ids

  unfoldable pub enqueue_batch : List Task → Prog B (List String)
  enqueue_batch [] = pure []
  enqueue_batch (t ∷ ts) = enqueue_some (t ∷ ts)

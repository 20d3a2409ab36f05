-- ===== src/Server/Starting.antt =====
-- server/mod.rs (rediq/src/server/mod.rs): what a server starts, and how it stops. Spawned tasks are
-- what they run: `run_scheduler`, `run_janitor` and `run_worker`.
pub mod Idle
use Prim.Native.String.{◌++◌}
use rediq.Prelude.{
  ℕ, zero, suc, ◌+◌, ltb, String, Bool, true, false, ◌&&◌, Option, none, some, List, [], ◌∷◌, show,
  if◌then◌else◌,
}
use rediq.Errors.{Result, ok, err}
use rediq.Janitor.{JanitorConfig}
use rediq.Scheduler.Running.{Scheduler, new_scheduler}
use rediq.Server.{ServerState}

-- What `run` spawns, besides the HTTP server of the metrics.
pub record Started : Type 0 where
  pub scheduler : Option Scheduler
  pub janitor : Option JanitorConfig
  pub workers : List String

abbrev pub worker_id : String → ℕ → String
worker_id server_name index = server_name ++ ("-worker-" ++ show index)

-- The workers from the `index`-th on.
abbrev pub create_workers : String → ℕ → ℕ → List String
create_workers name zero index = []
create_workers name (suc n) index = worker_id name index ∷ create_workers name n (index + 1)

abbrev pub scheduler_of : Bool → List String → Option Scheduler
scheduler_of true queues = some (new_scheduler queues)
scheduler_of false queues = none

unfoldable pub run_server : {F S P : Type 0} → ServerState F S P → Started
run_server st = record {
  scheduler = scheduler_of st.config.enable_scheduler st.config.queues;
  janitor = st.config.janitor_config;
  workers = create_workers st.config.server_name st.config.concurrency 0;
}

-- `graceful_shutdown`. The list has the milliseconds after which each of the remaining `join_next` calls
-- comes back; the result is the time at which the function does.
abbrev pub join_rest : ℕ → List ℕ → ℕ
join_rest now [] = now
join_rest now (t ∷ ts) = join_rest t ts

unfoldable pub graceful_shutdown : ℕ → ℕ → List ℕ → ℕ
graceful_shutdown initial_count now [] = now
graceful_shutdown initial_count now (t ∷ ts) =
    let again = graceful_shutdown initial_count t ts in
    if ltb 0 initial_count && ltb now 30_000 then again else join_rest now (t ∷ ts)

pub record ServerStats : Type 0 where
  pub server_name : String
  pub active_workers : ℕ
  pub queues : List String

-- The count of workers is read while they run.
abbrev pub stats : {F S P : Type 0} → ServerState F S P → ℕ → ServerStats
stats st worker_count = record {
  server_name = st.config.server_name;
  active_workers = worker_count;
  queues = st.config.queues;
}

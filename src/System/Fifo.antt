-- ===== src/System/Fifo.antt =====
-- A queue as a client and a worker see it, `enqueue` (rediq/src/client/builder.rs) and
-- `dequeue_task` (rediq/src/server/worker.rs) of one queue in any sequence, and the first-in
-- first-out queue of tasks that it should be.
pub mod Holding
pub mod Refines
use rediq.Prelude.{
  ℕ, zero, suc, String, Bool, true, false, ◌≡◌, Option, none, some, List, [], ◌∷◌, ◌++◌, contains,
}
use rediq.Errors.{ok}
use rediq.Redis.{Prog, pure, ◌>>=◌}
use rediq.Config.{RediqConfig}
use rediq.Task.{Task}
use rediq.Codec.{Codec}
use rediq.Client.{enqueue}
use rediq.Worker.{dequeue_task, activated}
use rediq.System.RoundTrip.{IsPlain}

pub data QueueCall : Type 0 where
  put : Task → ℕ → QueueCall
  take : ℕ → QueueCall

pub data Answer : Type 0 where
  entered : String → Answer
  given : Option Task → Answer

-- The calls, one after the other, with their answers.
module _ {B : Type 0} (codec : Codec B) (cfg : RediqConfig) (timeout : ℕ) (queue : String) where
  abbrev pub serve : QueueCall → Prog B Answer
  serve (put t now) = do id ← enqueue codec cfg t now; pure (entered id)
  serve (take now) = do t ← dequeue_task codec timeout queue now; pure (given t)

  abbrev pub serve_all : List QueueCall → Prog B (List Answer)
  serve_all [] = pure []
  serve_all (c ∷ cs) = do a ← serve c; rest ← serve_all cs; pure (a ∷ rest)

-- The queue of tasks. A task that is taken is active from then on.
module _ {B : Type 0} (codec : Codec B) where
  abbrev pub abstract_calls : List QueueCall → List Task → List Answer
  abstract_calls [] q = []
  abstract_calls (put t now ∷ cs) q = entered t.id ∷ abstract_calls cs (q ++ t ∷ [])
  abstract_calls (take now ∷ cs) [] = given none ∷ abstract_calls cs []
  abstract_calls (take now ∷ cs) (t ∷ q) =
      given (some (activated codec t now)) ∷ abstract_calls cs q

-- Each put is a plain task of the queue under an identifier that was not used before.
abbrev pub SuitsQueue : String → List String → List QueueCall → Type 0
SuitsQueue queue used [] = Unit
SuitsQueue queue used (put t now ∷ cs) =
    (contains used t.id ≡ false) × IsPlain t × (t.queue ≡ queue) × SuitsQueue queue (t.id ∷ used) cs
SuitsQueue queue used (take now ∷ cs) = SuitsQueue queue used cs

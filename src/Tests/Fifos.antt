-- ===== src/Tests/Fifos.antt =====
-- The theorems on the queue as clients and workers see it at concrete data.
use rediq.Prelude.{◌≡◌, refl, [], ◌∷◌}
use rediq.Errors.{ok}
use rediq.Redis.Server.{outcome, memory, empty}
use rediq.Config.{default_config}
use rediq.System.Fifo.{put, take, serve_all, abstract_calls}
use rediq.System.Fifo.Refines
use rediq.System.Fifo.Holding.{Holds}
use rediq.Tests.Samples.{codec, codec-IsFaithful, mail, letter}

empty-Holds : Holds codec "mail" empty [] []
empty-Holds = record {
  unpaused = refl;
  queues = [];
  registered = refl;
  waiting = refl;
  actives = [];
  active = refl;
  unused = λ id n. refl;
  tasks = tt;
}

-- Two tasks come, and three are asked for.
fifo_refines_example :
    (outcome memory
      (serve_all codec default_config 2 "mail"
        (put mail 100 ∷ put letter 100 ∷ take 101 ∷ take 102 ∷ take 103 ∷ []))
      empty).0
    ≡ ok (
        abstract_calls codec
          (put mail 100 ∷ put letter 100 ∷ take 101 ∷ take 102 ∷ take 103 ∷ [])
          [])
fifo_refines_example =
    Refines.fifo_refines codec codec-IsFaithful default_config 86399 refl memory 2 "mail"
      (put mail 100 ∷ put letter 100 ∷ take 101 ∷ take 102 ∷ take 103 ∷ []) empty [] [] empty-Holds
      (
        refl,
        record { alone = refl; common = refl; single = refl; unranked = refl },
        refl,
        (refl, record { alone = refl; common = refl; single = refl; unranked = refl }, refl, tt),
      )

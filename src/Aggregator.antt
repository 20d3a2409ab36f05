-- ===== src/Aggregator.antt =====
-- aggregator/mod.rs (rediq/src/aggregator/mod.rs): what makes one task of a group, and the manager
-- that knows it for each group. An aggregator is a function.
pub mod Registry
use rediq.Prelude.{ℕ, String, Bool, Option, none, some, List, [], ◌∷◌}
use rediq.Errors.{Result, ok}
use rediq.Processor.{lookup, insert, has_key}
use rediq.Task.{Task, from_secs}

pub record AggregatorConfig : Type 0 where
  pub max_size : ℕ
  pub grace_period : ℕ
  pub max_delay : ℕ

abbrev pub default_aggregator : AggregatorConfig
default_aggregator = record {
  max_size = 10;
  grace_period = from_secs 30;
  max_delay = from_secs 300;
}

unfoldable pub with_max_size : AggregatorConfig → ℕ → AggregatorConfig
with_max_size c size = record c { max_size = size }

unfoldable pub with_grace_period : AggregatorConfig → ℕ → AggregatorConfig
with_grace_period c duration = record c { grace_period = duration }

unfoldable pub with_max_delay : AggregatorConfig → ℕ → AggregatorConfig
with_max_delay c duration = record c { max_delay = duration }

abbrev pub Aggregator : Type 0
Aggregator = String → List Task → Result (Option Task)

pub record GroupAggregatorFunc : Type 0 where
  pub config : AggregatorConfig
  pub f : Aggregator

abbrev pub new_func : Aggregator → GroupAggregatorFunc
new_func f = record { config = default_aggregator; f = f }

abbrev pub func_with_config : Aggregator → AggregatorConfig → GroupAggregatorFunc
func_with_config f config = record { config = config; f = f }

abbrev pub aggregate : GroupAggregatorFunc → Aggregator
aggregate g group tasks = g.f group tasks

-- `Vec::pop`
abbrev pub popped : List Task → Option Task
popped [] = none
popped (t ∷ []) = some t
popped (t ∷ u ∷ ts) = popped (u ∷ ts)

-- `FirstTaskAggregator`
unfoldable pub first_task : Aggregator
first_task group tasks = ok (popped tasks)

pub record AggregatorManager : Type 0 where
  pub aggregators : List (String × Aggregator)
  pub default_config : AggregatorConfig

abbrev pub new_manager : AggregatorManager
new_manager = record { aggregators = []; default_config = default_aggregator }

unfoldable pub register : AggregatorManager → String → Aggregator → AggregatorManager
register m group agg = record m { aggregators = insert group agg m.aggregators }

unfoldable pub register_fn : AggregatorManager → String → Aggregator → AggregatorManager
unfolding register
register_fn m group f = register m group (aggregate (new_func f))

unfoldable pub get : AggregatorManager → String → Option Aggregator
get m group = lookup group m.aggregators

unfoldable pub has : AggregatorManager → String → Bool
has m group = has_key group m.aggregators

unfoldable pub set_default_config : AggregatorManager → AggregatorConfig → AggregatorManager
set_default_config m config = record m { default_config = config }

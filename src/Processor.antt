-- ===== src/Processor.antt =====
-- The multiplexer of processor/mod.rs (rediq/src/processor/mod.rs). Handlers are a parameter `H`, with
-- `run` for what `Handler::handle_with_context` does; a hash map is an association list in which no
-- key comes twice.
pub mod Routing
pub mod Context
use rediq.Prelude.{
  ℕ, ltb, String, str_eq, Bool, true, false, ◌||◌, Option, none, some, List, [], ◌∷◌, length,
  if◌then◌else◌,
}
use rediq.Errors.{Result, err, handler}
use rediq.Task.{Task}

module _ {H : Type 0} where
  abbrev pub lookup : String → List (String × H) → Option H
  lookup k [] = none
  lookup k ((j, h) ∷ l) = if str_eq j k then some h else lookup k l

  abbrev pub insert : String → H → List (String × H) → List (String × H)
  insert k h [] = (k, h) ∷ []
  insert k h ((j, g) ∷ l) = if str_eq j k then (j, h) ∷ l else (j, g) ∷ insert k h l

  abbrev pub drop_key : String → List (String × H) → List (String × H)
  drop_key k [] = []
  drop_key k ((j, g) ∷ l) = if str_eq j k then l else (j, g) ∷ drop_key k l

  abbrev pub has_key : String → List (String × H) → Bool
  has_key k [] = false
  has_key k ((j, g) ∷ l) = str_eq j k || has_key k l

pub record Mux (H : Type 0) : Type 0 where
  pub handlers : List (String × H)
  pub default_handler : Option H

module _ {H : Type 0} where
  abbrev pub new_mux : Mux H
  new_mux = record { handlers = []; default_handler = none }

  unfoldable pub handle : Mux H → String → H → Mux H
  handle m task_type h = record m { handlers = insert task_type h m.handlers }

  unfoldable pub set_default : Mux H → H → Mux H
  set_default m h = record m { default_handler = some h }

  -- `Option::or`
  abbrev pub or_else : Option H → Option H → Option H
  or_else none other = other
  or_else (some h) other = some h

  abbrev pub routed :
      {C : Type 0} → (H → Task → C → Result (Unit {0})) → Option H → Task → C → Result (Unit {0})
  routed run none t ctx = err (handler "No handler found for task_type: {}")
  routed run (some h) t ctx = run h t ctx

  unfoldable pub process_with_context :
      {C : Type 0} → (H → Task → C → Result (Unit {0})) → Mux H → Task → C → Result (Unit {0})
  process_with_context run m t ctx =
      routed run (or_else (lookup t.task_type m.handlers) m.default_handler) t ctx

  unfoldable pub process : (H → Task → Result (Unit {0})) → Mux H → Task → Result (Unit {0})
  process run m t =
      routed (λ h u (ctx : Unit {0}). run h u)
        (or_else (lookup t.task_type m.handlers) m.default_handler) t tt

  abbrev pub is_some : Option H → Bool
  is_some none = false
  is_some (some h) = true

  unfoldable pub has_handler : Mux H → String → Bool
  has_handler m task_type = has_key task_type m.handlers || is_some m.default_handler

  unfoldable pub handler_count : Mux H → ℕ
  handler_count m = length m.handlers

  abbrev pub keys_of : List (String × H) → List String
  keys_of [] = []
  keys_of ((k, h) ∷ l) = k ∷ keys_of l

  -- The order is the hash map's.
  unfoldable pub registered_types : Mux H → List String
  registered_types m = keys_of m.handlers

  unfoldable pub remove : Mux H → String → Bool × Mux H
  remove m task_type =
      (has_key task_type m.handlers, record m { handlers = drop_key task_type m.handlers })

  unfoldable pub clear : Mux H → Mux H
  clear m = record m { handlers = []; default_handler = none }

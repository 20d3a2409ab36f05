-- ===== src/Cli/Dashboard/History.antt =====
-- The histories of the dashboard (rediq-cli/src/dashboard.rs).
use rediq.Prelude.{
  ℕ, ◌-◌, ◌/◌, ltb, String, str_eq, Bool, true, false, ◌||◌, not, List, [], ◌∷◌, length, snoc, drop,
  if◌then◌else◌,
}

pub record HistoryPoint : Type 0 where
  pub value : ℕ
  pub timestamp : ℕ

pub record HistoryData : Type 0 where
  pub pending : List HistoryPoint
  pub active : List HistoryPoint
  pub completed : List HistoryPoint
  pub dead : List HistoryPoint
  pub error_rate : List HistoryPoint
  pub max_points : ℕ

abbrev pub new_history : ℕ → HistoryData
new_history max_points = record {
  pending = [];
  active = [];
  completed = [];
  dead = [];
  error_rate = [];
  max_points = max_points;
}

-- `push_back`, and `pop_front` of one that has become too long.
abbrev pub pushed : ℕ → HistoryPoint → List HistoryPoint → List HistoryPoint
pushed most p points =
    if ltb most (length (snoc points p)) then drop 1 (snoc points p) else snoc points p

unfoldable pub add_point : HistoryData → String → ℕ → ℕ → HistoryData
add_point h metric value instant =
    let point = pushed h.max_points (record { value = value; timestamp = instant }) in
    if str_eq metric "pending"
    then record h { pending = point h.pending }
    else if str_eq metric "active"
    then record h { active = point h.active }
    else if str_eq metric "completed"
    then record h { completed = point h.completed }
    else if str_eq metric "dead"
    then record h { dead = point h.dead }
    else if str_eq metric "error_rate"
    then record h { error_rate = point h.error_rate }
    else h

abbrev pub points_of : HistoryData → String → List HistoryPoint
points_of h metric =
    if str_eq metric "pending"
    then h.pending
    else if str_eq metric "active"
    then h.active
    else if str_eq metric "completed"
    then h.completed
    else if str_eq metric "dead"
    then h.dead
    else if str_eq metric "error_rate"
    then h.error_rate
    else []

abbrev pub values : List HistoryPoint → List ℕ
values [] = []
values (p ∷ ps) = p.value ∷ values ps

unfoldable pub get_values : HistoryData → String → List ℕ
get_values h metric = values (points_of h metric)

abbrev pub age_of : ℕ → List HistoryPoint → ℕ
age_of instant [] = 0
age_of instant (p ∷ ps) = (instant - p.timestamp) / 1000

unfoldable pub oldest_age_secs : HistoryData → String → ℕ → ℕ
oldest_age_secs h metric instant = age_of instant (points_of h metric)

abbrev pub is_empty : {A : Type 0} → List A → Bool
is_empty [] = true
is_empty (a ∷ l) = false

unfoldable pub has_data : HistoryData → Bool
has_data h =
    not (is_empty h.pending)
    || not (is_empty h.active)
    || not (is_empty h.completed)
    || not (is_empty h.dead)

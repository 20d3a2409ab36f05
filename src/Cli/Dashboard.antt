-- ===== src/Cli/Dashboard.antt =====
-- The state of the dashboard (rediq-cli/src/dashboard.rs): what it shows, its histories and alerts.
-- Clocks are arguments, in milliseconds. `F` holds the floats, whose operations are a parameter.
pub mod Drawing
pub mod History
pub mod Input
pub mod Refreshing
pub mod Running
pub mod Sound
use Prim.Native.String.{◌++◌}
use rediq.Prelude.{
  ℕ, ◌+◌, ◌-◌, ◌/◌, ◌%◌, ◌^◌, ltb, ◌==◌, String, str_eq, Bool, true, false, ◌||◌, not, Option, none,
  some, List, [], ◌∷◌, length, snoc, drop, show, if◌then◌else◌,
}
use rediq.Cli.Dashboard.History.{HistoryData, new_history}
use rediq.Inspector.{TaskInfo}

pub record Floats (F : Type 0) : Type 0 where
  pub zero_rate : F
  pub twenty : F
  -- The first number of the second, in percent and in tenths of a percent.
  pub percent : ℕ → ℕ → F
  pub permille : ℕ → ℕ → ℕ
  -- So many in so many milliseconds.
  pub per_second : ℕ → ℕ → F
  pub above : F → F → Bool
  pub text_of : F → String

pub data ViewMode : Type 0 where
  main task_list help : ViewMode

pub record TaskListState : Type 0 where
  pub tasks : List TaskInfo
  pub page : ℕ
  pub page_size : ℕ
  pub selected_task : ℕ
  pub queue_name : String
  pub total_available : ℕ

pub data AlertSeverity : Type 0 where
  warning critical : AlertSeverity

pub record Alert : Type 0 where
  pub message : String
  pub severity : AlertSeverity
  pub active : Bool

pub record AlertState (F : Type 0) : Type 0 where
  pub dead_threshold : ℕ
  pub error_rate_threshold : F
  pub alerts : List Alert

pub data StatusType : Type 0 where
  success error info warning : StatusType

pub record OperationStatus : Type 0 where
  pub message : String
  pub status_type : StatusType
  pub timestamp : ℕ

pub record QueueStats : Type 0 where
  pub name : String
  pub pending : ℕ
  pub active : ℕ
  pub delayed : ℕ
  pub retry : ℕ
  pub dead : ℕ
  pub completed : ℕ

pub record WorkerInfo : Type 0 where
  pub id : String
  pub server : String
  pub queues : List String
  pub status : String
  pub processed : ℕ

pub record DashboardState (F : Type 0) : Type 0 where
  pub view_mode : ViewMode
  pub queues : List QueueStats
  pub workers : List WorkerInfo
  pub selected_queue : ℕ
  pub task_list : Option TaskListState
  pub alerts : AlertState F
  pub operation_status : Option OperationStatus
  pub show_help : Bool
  pub last_update : ℕ
  pub total_processed : ℕ
  pub ops_per_sec : F
  pub history : HistoryData

-- The sum of u64s.
abbrev pub sum : (QueueStats → ℕ) → List QueueStats → ℕ
sum f [] = 0
sum f (q ∷ qs) = (f q + sum f qs) % 2 ^ 64

module _ {F : Type 0} (floats : Floats F) where
  -- What `run` starts with.
  abbrev pub new_state : ℕ → DashboardState F
  new_state instant = record {
    view_mode = ViewMode.main;
    queues = [];
    workers = [];
    selected_queue = 0;
    task_list = none;
    alerts = record { dead_threshold = 100; error_rate_threshold = floats.twenty; alerts = [] };
    operation_status = none;
    show_help = false;
    last_update = instant;
    total_processed = 0;
    ops_per_sec = floats.zero_rate;
    history = new_history 60;
  }

  abbrev pub failures : DashboardState F → ℕ
  failures st = (sum (λ q. q.dead) st.queues + sum (λ q. q.retry) st.queues) % 2 ^ 64

  abbrev pub outcomes : DashboardState F → ℕ
  outcomes st = (sum (λ q. q.completed) st.queues + failures st) % 2 ^ 64

  unfoldable pub calculate_error_rate : DashboardState F → F
  calculate_error_rate st =
      if outcomes st == 0 then floats.zero_rate else floats.percent (failures st) (outcomes st)

  abbrev pub dead_alerts : DashboardState F → List Alert → List Alert
  dead_alerts st others =
      if ltb st.alerts.dead_threshold (sum (λ q. q.dead) st.queues)
      then record {
        message =
            "Dead letter queue: "
            ++ (show (sum (λ q. q.dead) st.queues)
                ++ (" tasks (threshold: " ++ (show st.alerts.dead_threshold ++ ")")));
        severity = AlertSeverity.critical;
        active = true;
      }
        ∷ others
      else others

  abbrev pub rate_alerts : DashboardState F → F → List Alert
  rate_alerts st rate =
      if floats.above rate st.alerts.error_rate_threshold
      then record {
        message =
            "Error rate: "
            ++ (floats.text_of rate
                ++ ("% (threshold: " ++ (floats.text_of st.alerts.error_rate_threshold ++ "%)")));
        severity = AlertSeverity.warning;
        active = true;
      }
        ∷ []
      else []

  unfoldable pub check_and_update_alerts : DashboardState F → DashboardState F
  unfolding calculate_error_rate
  check_and_update_alerts st = record st {
    alerts = record st.alerts {
      alerts = dead_alerts st (rate_alerts st (calculate_error_rate st));
    };
  }

module _ {F : Type 0} where
  abbrev pub set_operation_status : DashboardState F → String → StatusType → ℕ → DashboardState F
  set_operation_status st message status_type instant = record st {
    operation_status =
        some (record { message = message; status_type = status_type; timestamp = instant });
  }

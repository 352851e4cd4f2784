-- ===== src/Runs.antt =====
-- The run records of lib/api/client.ts, and the sets of statuses that the pages share.
-- Times are milliseconds since the epoch (the ISO texts, parsed), durations are in milliseconds and
-- costs in units of $0.0001: the program's floats, at the precision that it shows.
use project_hawkeye.Base.{ℕ, String, Bool, true, false, List, Option, not}
use project_hawkeye.Base.{◌≡◌, refl}

pub data RunStatus : Type 0 where
  queued running passed failed errored timed_out blocked cancelled : RunStatus

pub record AssertionResult : Type 0 where
  pub id : String
  pub kind : String
  pub description : String
  pub passed : Bool
  pub status : String
  pub details : Option String

pub record Viewport : Type 0 where
  pub width : ℕ
  pub height : ℕ
  pub device_scale_factor : Option ℕ

pub record RunSummary : Type 0 where
  pub run_id : String
  pub status : RunStatus
  pub test_name : Option String
  pub triggered_by : Option String
  pub created_at : ℕ
  pub duration_s : Option ℕ
  pub total_steps : Option ℕ
  pub estimated_cost_usd : Option ℕ
  pub termination_reason : Option String
  pub output_dir : Option String
  pub novnc_url : Option String
  pub assertion_results : Option (List AssertionResult)
  pub error_message : Option String
  pub steps_completed : Option (List String)
  pub total_input_tokens : Option ℕ
  pub total_output_tokens : Option ℕ
  pub error_count : Option ℕ
  pub tool_call_count : Option ℕ
  pub browser_used : Option String
  pub model_used : Option String
  pub recording : Option Bool
  pub max_steps_override : Option ℕ
  pub timeout_override : Option ℕ
  pub viewport : Option Viewport

-- `TERMINAL.has(status)`
unfoldable pub is_terminal : RunStatus → Bool
is_terminal queued = false
is_terminal running = false
is_terminal _ = true

-- `isActive(status)`
unfoldable pub is_active : RunStatus → Bool
is_active queued = true
is_active running = true
is_active _ = false

-- A run is either active or terminal.
pub is_active-is_terminal : (s : RunStatus) → is_active s ≡ not (is_terminal s)
unfolding is_active is_terminal
is_active-is_terminal queued = refl
is_active-is_terminal _ = refl

-- ===== src/Tests/Data.antt =====
-- Records that the tests share.
use project_hawkeye.Base.{ℕ, String, List, [], none, some, true}
use project_hawkeye.Runs.{RunStatus, RunSummary}
use project_hawkeye.Suites.{SuiteSummary, TestCaseSummary, Schedule}
use project_hawkeye.Notifications.Store.{error, Draft, Stamp, NotificationState}

abbrev pub run_at : String → RunStatus → ℕ → RunSummary
run_at id status created_at = record {
  run_id = id;
  status = status;
  test_name = some "Login";
  triggered_by = none;
  created_at = created_at;
  duration_s = some 61000;
  total_steps = none;
  estimated_cost_usd = none;
  termination_reason = none;
  output_dir = none;
  novnc_url = none;
  assertion_results = none;
  error_message = none;
  steps_completed = none;
  total_input_tokens = none;
  total_output_tokens = none;
  error_count = none;
  tool_call_count = none;
  browser_used = none;
  model_used = none;
  recording = none;
  max_steps_override = none;
  timeout_override = none;
  viewport = none;
}

abbrev pub suite_of : String → List String → SuiteSummary
suite_of id ids = record {
  id = id;
  name = id;
  description = "";
  test_case_ids = ids;
  test_count = 0;
  pass_rate = 0;
  last_run_at = none;
  created_at = "";
  group = none;
}

abbrev pub test_case_of : String → TestCaseSummary
test_case_of id = record {
  id = id;
  name = id;
  status = "active";
  version = 1;
  priority = "P1";
  tags = [];
  created_by = none;
  last_run_status = none;
  last_run_at = none;
  last_run_by = none;
  created_at = "";
  updated_at = "";
}

abbrev pub schedule_of : String → String → String → Schedule
schedule_of id cron branch = record {
  id = id;
  project_id = "p";
  suite_id = "s";
  cron = cron;
  branch = branch;
  enabled = true;
  last_triggered_at = none;
  created_at = "";
}

abbrev pub draft_of : String → Draft
draft_of title = record {
  level = error;
  title = title;
  body = none;
  href = none;
  project_id = some "p";
  run_id = some "r1";
}

abbrev pub stamp_of : String → Stamp
stamp_of now = record { now = now; random = "abcde"; iso = "2024-01-01" }

abbrev pub signed_in : NotificationState
signed_in = record { by_user = []; active_email = some "ann@x.io" }

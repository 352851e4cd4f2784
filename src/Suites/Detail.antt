-- ===== src/Suites/Detail.antt =====
-- The page of one suite,
-- Frontend/hawkeye-web/src/app/app/(workspace)/[projectId]/suites/[id]/page.tsx: its state and what
-- its handlers do on the answers. Its lists of test cases stand in Catalog.
pub mod Counted
use project_hawkeye.Base.{
  ℕ, String, Bool, true, false, List, [], ◌∷◌, length, Option, none, some, or_else, if◌then◌else◌,
}
use project_hawkeye.Base.Strings.{includes, truthy, ◌+++◌}
use project_hawkeye.Runs.{RunSummary}
use project_hawkeye.Suites.{SuiteSummary, TestCaseSummary}

-- What `getSuiteSchedule` and `setSuiteSchedule` give
pub record SuiteSchedule : Type 0 where
  pub cron_expr : Option String
  pub enabled : Bool
  pub next_run_at : Option String

pub record Page : Type 0 where
  pub suite : Option SuiteSummary
  pub all_cases : List TestCaseSummary
  pub schedule : Option SuiteSchedule
  pub cron_expr : String
  pub sched_enabled : Bool
  pub suite_runs : List RunSummary
  pub loading : Bool
  pub sched_saving : Bool
  pub adding_id : Option String

abbrev pub initial : Page
initial = record {
  suite = none;
  all_cases = [];
  schedule = none;
  cron_expr = "0 0 * * *";
  sched_enabled = true;
  suite_runs = [];
  loading = true;
  sched_saving = false;
  adding_id = none;
}

pub data Effect : Type 0 where
  toast_success : String → Effect
  toast_error : String → Effect
  push : String → Effect

-- `none` is a rejection, `err` one with the text of the error.
pub data Answer (T : Type 0) : Type 0 where
  came : T → Answer T
  threw : (message : String) → Answer T

-- `load`, on both answers
unfoldable pub load :
    (project : String) → Answer (SuiteSummary × List TestCaseSummary) → Page → Page × List Effect
load project (came (suite, cases)) p =
    (record p { suite = some suite; all_cases = cases; loading = false }, [])
load project (threw message) p = (
  record p { loading = false },
  toast_error "Suite not found" ∷ push ("/app/" +++ (project +++ "/suites")) ∷ [],
)

unfoldable pub load_schedule : Answer SuiteSchedule → Page → Page
load_schedule (came s) p = record p {
  schedule = some s;
  cron_expr = if truthy s.cron_expr then or_else s.cron_expr "" else p.cron_expr;
  sched_enabled = s.enabled;
}
load_schedule (threw message) p = p

unfoldable pub load_runs : Answer (List RunSummary) → Page → Page
load_runs (came runs) p = record p { suite_runs = runs }
load_runs (threw message) p = p

-- `{ ...suite, test_case_ids: res.test_case_ids, test_count: res.test_case_ids.length }`
abbrev pub with_members : List String → SuiteSummary → SuiteSummary
with_members ids suite = record suite { test_case_ids = ids; test_count = length ids }

-- `handleAddMember` up to its request, which it makes if there is a suite
unfoldable pub add_member : String → Page → Page × Option SuiteSummary
add_member tc p = elim p.suite [
  | none ↦ (p, none)
  | some suite ↦ (record p { adding_id = some tc }, some suite)
]

-- The rest of it; `suite` is that of the render in which it was called.
unfoldable pub member_added : SuiteSummary → Answer (List String) → Page → Page × List Effect
member_added suite (came ids) p = (
  record p { suite = some (with_members ids suite); adding_id = none },
  toast_success "Added to suite" ∷ [],
)
member_added suite (threw message) p = (
  record p { adding_id = none },
  toast_error (if includes message "409" then "Already in suite" else "Failed to add") ∷ [],
)

-- `handleRemoveMember` behind its request
unfoldable pub member_removed : SuiteSummary → Answer (List String) → Page → Page × List Effect
member_removed suite (came ids) p =
    (record p { suite = some (with_members ids suite) }, toast_success "Removed from suite" ∷ [])
member_removed suite (threw message) p = (p, toast_error "Failed to remove" ∷ [])

-- `handleSaveSchedule`, with the request, and behind it
unfoldable pub save_schedule : Page → Page × String × Bool
save_schedule p = (record p { sched_saving = true }, p.cron_expr, p.sched_enabled)

unfoldable pub schedule_saved : Answer SuiteSchedule → Page → Page × List Effect
schedule_saved (came s) p =
    (record p { schedule = some s; sched_saving = false }, toast_success "Schedule saved" ∷ [])
schedule_saved (threw message) p =
    (record p { sched_saving = false }, toast_error "Failed to save schedule" ∷ [])

-- `handleRunAll`
unfoldable pub run_all : Answer (Unit {0}) → List Effect
run_all (came done) = toast_success "Suite queued — check Live for progress" ∷ []
run_all (threw message) = toast_error "Failed to run suite" ∷ []

pub data Event : Type 0 where
  loaded : Answer (SuiteSummary × List TestCaseSummary) → Event
  schedule_loaded : Answer SuiteSchedule → Event
  runs_loaded : Answer (List RunSummary) → Event
  adding : (tc : String) → Event
  added : SuiteSummary → Answer (List String) → Event
  removed : SuiteSummary → Answer (List String) → Event
  saving : Event
  saved : Answer SuiteSchedule → Event
  cron_typed : String → Event
  enabled_set : Bool → Event

module _ (project : String) where
  unfoldable pub step : Event → Page → Page
  unfolding load load_schedule load_runs add_member member_added member_removed save_schedule
      schedule_saved
  step (loaded answer) p = (load project answer p).0
  step (schedule_loaded answer) p = load_schedule answer p
  step (runs_loaded answer) p = load_runs answer p
  step (adding tc) p = (add_member tc p).0
  step (added suite answer) p = (member_added suite answer p).0
  step (removed suite answer) p = (member_removed suite answer p).0
  step saving p = (save_schedule p).0
  step (saved answer) p = (schedule_saved answer p).0
  step (cron_typed v) p = record p { cron_expr = v }
  step (enabled_set v) p = record p { sched_enabled = v }

  unfoldable pub run : List Event → Page → Page
  unfolding step
  run [] p = p
  run (e ∷ rest) p = run rest (step e p)

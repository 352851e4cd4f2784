-- ===== src/Tables/Runs.antt =====
-- The rows of the two tables: the filters, the counts of the tabs and the metrics of
-- dashboard/page.tsx, and the filters of artifacts/page.tsx. The language's `trim` and `toLowerCase`
-- follow the tables of Unicode: they are any two functions here.
pub mod Totals
use project_hawkeye.Base.{
  ℕ, ◌+◌, ◌*◌, ◌/◌, ◌%◌, ◌-◌, String, Bool, true, false, ◌&&◌, ◌||◌, List, [], ◌∷◌, Option, none,
  some, filter, length, count_by, if◌then◌else◌, leb, ltb, or_else,
}
use project_hawkeye.Base.Strings.{is_filled, includes, ◌+++◌}
use project_hawkeye.Runs.{
  RunStatus, queued, running, passed, failed, errored, timed_out, blocked, cancelled, RunSummary,
  is_active, is_terminal,
}

abbrev pub is_passed : RunStatus → Bool
is_passed passed = true
is_passed _ = false

-- The statuses that the dashboard counts as failed, and those that the artifacts page does.
abbrev pub is_failed : RunStatus → Bool
is_failed failed = true
is_failed errored = true
is_failed blocked = true
is_failed _ = false

abbrev pub is_failed_artifact : RunStatus → Bool
is_failed_artifact failed = true
is_failed_artifact errored = true
is_failed_artifact _ = false

-- `StatusFilter` of the dashboard
pub data StatusFilter : Type 0 where
  all_runs active_runs passed_runs failed_runs : StatusFilter

abbrev pub narrow : StatusFilter → List RunSummary → List RunSummary
narrow all_runs list = list
narrow active_runs list = filter (λ r. is_active r.status) list
narrow passed_runs list = filter (λ r. is_passed r.status) list
narrow failed_runs list = filter (λ r. is_failed r.status) list

-- `counts` of `RunFilterTabs`
pub record Counts : Type 0 where
  pub every_run : ℕ
  pub active : ℕ
  pub passed : ℕ
  pub failed : ℕ

unfoldable pub counts : Option (List RunSummary) → Counts
counts runs = record {
  every_run = length (or_else runs []);
  active = count_by (λ r. is_active r.status) (or_else runs []);
  passed = count_by (λ r. is_passed r.status) (or_else runs []);
  failed = count_by (λ r. is_failed r.status) (or_else runs []);
}

abbrev pub count_of : Counts → StatusFilter → ℕ
count_of c all_runs = c.every_run
count_of c active_runs = c.active
count_of c passed_runs = c.passed
count_of c failed_runs = c.failed

-- `metrics`: the numbers behind the three cards; the rate is a percentage, rounded to the nearest.
pub record Metrics : Type 0 where
  pub total : ℕ
  pub passed : ℕ
  pub active : ℕ
  pub completed : ℕ
  pub pass_rate : Option ℕ

abbrev pub percent : ℕ → ℕ → Option ℕ
percent part whole = if ltb 0 whole then some ((200 * part + whole) / (2 * whole)) else none

unfoldable pub metrics : List RunSummary → Metrics
metrics runs =
    let passed = count_by (λ r. is_passed r.status) runs in
    let completed = count_by (λ r. is_terminal r.status) runs in
    record {
      total = length runs;
      passed = passed;
      active = count_by (λ r. is_active r.status) runs;
      completed = completed;
      pass_rate = percent passed completed;
    }

-- `formatDuration`, of milliseconds: `toFixed(0)` rounds the seconds that are left to the nearest.
pub data Duration : Type 0 where
  dash : Duration
  seconds : (count : ℕ) → Duration
  minutes : (count seconds : ℕ) → Duration

unfoldable pub format_duration : Option ℕ → Duration
format_duration none = dash
format_duration (some ms) =
    if ltb ms 60000
    then seconds ((ms + 500) / 1000)
    else minutes (ms / 60000) ((ms % 60000 + 500) / 1000)

-- `formatDate` of the dashboard, of a time and the time now
pub data Age : Type 0 where
  just_now : Age
  minutes_ago : (count : ℕ) → Age
  hours_ago : (count : ℕ) → Age
  on_date : (iso : ℕ) → Age

unfoldable pub format_date : ℕ → ℕ → Age
format_date now iso =
    let m = (now - iso) / 60000 in
    (if ltb m 1
      then just_now
      else if ltb m 60
      then minutes_ago m
      else if ltb (m / 60) 24
      then hours_ago (m / 60)
      else on_date iso)

-- `StatusFilter` of the artifacts page
pub data ArtifactFilter : Type 0 where
  all_artifacts passed_artifacts failed_artifacts : ArtifactFilter

abbrev pub narrow_artifacts : ArtifactFilter → List RunSummary → List RunSummary
narrow_artifacts all_artifacts list = list
narrow_artifacts passed_artifacts list = filter (λ r. is_passed r.status) list
narrow_artifacts failed_artifacts list = filter (λ r. is_failed_artifact r.status) list

-- A stable sort, the latest run first.
abbrev pub insert : RunSummary → List RunSummary → List RunSummary
insert r [] = r ∷ []
insert r (x ∷ xs) =
    let rest = insert r xs in (if leb x.created_at r.created_at then r ∷ x ∷ xs else x ∷ rest)

abbrev pub sort_latest : List RunSummary → List RunSummary
sort_latest [] = []
sort_latest (r ∷ rest) = insert r (sort_latest rest)

module _ (trim lower : String → String) where
  -- `filtered` of the dashboard
  unfoldable pub found : String → RunSummary → Bool
  found ql r = includes (lower r.run_id) ql || includes (lower (or_else r.test_name "")) ql

  unfoldable pub filtered : String → StatusFilter → Option (List RunSummary) → List RunSummary
  unfolding found
  filtered q status runs =
      let list = narrow status (or_else runs []) in
      (if is_filled (lower (trim q)) then filter (found (lower (trim q))) list else list)

  -- `completed` and `filtered` of the artifacts page
  unfoldable pub completed : Option (List RunSummary) → List RunSummary
  completed none = []
  completed (some runs) = sort_latest (filter (λ r. is_terminal r.status) runs)

  unfoldable pub filtered_artifacts :
      String → ArtifactFilter → Option (List RunSummary) → List RunSummary
  unfolding completed found
  filtered_artifacts q status runs =
      let list = narrow_artifacts status (completed runs) in
      (if is_filled (trim q) then filter (found (lower q)) list else list)

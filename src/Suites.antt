-- ===== src/Suites.antt =====
-- The test suites page, Frontend/hawkeye-web/src/app/app/(workspace)/[projectId]/suites/page.tsx, and
-- the records that it shows (lib/api/client.ts). A pass rate is in thousandths.
pub mod Assign
pub mod Schedules
pub mod Catalog
pub mod Detail
pub mod Cases
use project_hawkeye.Base.{ℕ, String, Bool, List, Option, length, str_eq}
use project_hawkeye.Base.Strings.{contains}

pub record SuiteSummary : Type 0 where
  pub id : String
  pub name : String
  pub description : String
  pub test_case_ids : List String
  pub test_count : ℕ
  pub pass_rate : ℕ
  pub last_run_at : Option String
  pub created_at : String
  pub group : Option String

pub record TestCaseSummary : Type 0 where
  pub id : String
  pub name : String
  pub status : String
  pub version : ℕ
  pub priority : String
  pub tags : List String
  pub created_by : Option String
  pub last_run_status : Option String
  pub last_run_at : Option String
  pub last_run_by : Option String
  pub created_at : String
  pub updated_at : String

pub record Schedule : Type 0 where
  pub id : String
  pub project_id : String
  pub suite_id : String
  pub cron : String
  pub branch : String
  pub enabled : Bool
  pub last_triggered_at : Option String
  pub created_at : String

-- `s.test_case_ids.includes(id)`
abbrev pub owns : String → SuiteSummary → Bool
owns id s = contains id s.test_case_ids

-- `PUT /projects/{project_id}/suites/{suite_id}` with `test_case_ids`, as
-- Backend/api/routes/suites.py answers it: the list is replaced, and the count follows.
abbrev pub with_ids : List String → SuiteSummary → SuiteSummary
with_ids ids s = record s { test_case_ids = ids; test_count = length ids }

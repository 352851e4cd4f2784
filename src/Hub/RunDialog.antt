-- ===== src/Hub/RunDialog.antt =====
-- What the dialog for a new run loads, the effects of src/components/app/new-run-modal.tsx.
use project_hawkeye.Base.{
  String, Bool, true, false, List, [], Option, none, some, if◌then◌else◌, or_else,
}
use project_hawkeye.Base.Strings.{truthy}
use project_hawkeye.Suites.{TestCaseSummary}

pub record Dialog : Type 0 where
  pub test_cases : List TestCaseSummary
  pub tc_loading : Bool
  pub test_case_id : String

abbrev pub opened : Dialog
opened = record { test_cases = []; tc_loading = true; test_case_id = "" }

-- The two effects for `initialTestCaseId`, with whether the test cases are asked for
unfoldable pub effects : Option String → Dialog → Dialog × Bool
effects initial d =
    if truthy initial
    then (record d { tc_loading = false; test_case_id = or_else initial "" }, false)
    else (d, true)

-- The answer to that request
unfoldable pub cases_came : Option (List TestCaseSummary) → Dialog → Dialog
cases_came none d = record d { tc_loading = false }
cases_came (some cases) d = record d { test_cases = cases; tc_loading = false }

-- ===== src/Tests/Workspaces.antt =====
-- The frame of the workspace, its rail, and the pages that start a run, list integrations and show
-- one suite.
use project_hawkeye.Base.{
  String, true, not, ◌&&◌, List, [], ◌∷◌, Option, none, some, every, ◌≡◌, refl,
}
use project_hawkeye.Base.Dict
use project_hawkeye.Client.Session
use project_hawkeye.NewRun.Launch.{runs, launch_first_file}
use project_hawkeye.NewRun.Settled.{round_settles}
use project_hawkeye.NewRun.{Page, TestCaseInfo, round, handle_launch}
use project_hawkeye.Notifications.Store
use project_hawkeye.NewRun
use project_hawkeye.Workspace
use project_hawkeye.Projects.{ProjectSummary, staging, get_project_for_user}
use project_hawkeye.Settings.Integrations.Agreement.{
  Exchange, removal, slack, git_hub, answered, failed, lost,
}
use project_hawkeye.Suites.Assign.Unassigned.{case_ids}
use project_hawkeye.Suites.Catalog.{member_cases, available_cases, ids_in}
use project_hawkeye.Suites.Catalog.Members.{members_or_available}
use project_hawkeye.Suites.{TestCaseSummary}
use project_hawkeye.Base.Strings.{contains}
use project_hawkeye.Settings.Integrations.{Integration}
use project_hawkeye.Settings.Members.{archive_project}
use project_hawkeye.Settings.Integrations
use project_hawkeye.Suites.Detail.Counted.{IsCountedSuite, run-IsCountedSuite}
use project_hawkeye.Suites.Detail.{loaded, added, removed, came, threw}
use project_hawkeye.Suites.Detail
use project_hawkeye.Tests.Data.{suite_of, test_case_of}
use project_hawkeye.Workspace.Credentials.{AgreesOn, run-AgreesOn, auth_token-commits}
use project_hawkeye.Workspace.Current.{commit-answered, given_early}
use project_hawkeye.Workspace.Navigation.Paths.{items, is_only, is_only-items}
use project_hawkeye.Workspace.Stale.{commit-archive_project, returned}
use project_hawkeye.Workspace.{
  loading, authenticated, Login, Frame, commit, commits, remount, ProjectInfo, summary, saved_for,
  committed, remounted, project_given, run,
}

is_only-items_example : every (is_only (items "p1")) (items "p1") ≡ true
is_only-items_example = is_only-items "p1"

abbrev first_file : TestCaseInfo
first_file = record {
  id = "t1";
  name = "Login";
  path = "cases/login.yaml";
  goal = "";
  browser = "firefox";
  assertions = 2;
}

abbrev files : Page
files = record (NewRun.initial none) { test_cases = some (first_file ∷ []) }

round_settles_example : round (round (round files)) ≡ round (round files)
round_settles_example = round_settles files

launch_first_file_example :
    runs (handle_launch (round (round files))) ≡ (none, some "cases/login.yaml", "firefox") ∷ []
launch_first_file_example = launch_first_file files first_file [] refl refl refl refl

abbrev project_of : String → ProjectSummary
project_of id = record { id = id; name = id; environment = staging; last_run_ok = none }

abbrev at_p1 : Frame
at_p1 = record {
  seen_email = none;
  seen_status = none;
  session = Session.initial;
  projects = record {
    projects_by_user = ("ann@x", project_of "p1") ∷ [];
    current_project = some (project_of "p1");
  };
  notifications = Store.initial;
}

abbrev ann : Option String → Login
ann token = record { email = some "ann@x"; access_token = token; status = authenticated }

auth_token-commits_example :
    ((commits (ann none ∷ ann (some "token") ∷ []) (remount at_p1)).session.auth_token ≡ none)
    × ((commits (ann none ∷ ann (some "token") ∷ []) (remount at_p1)).session.auth_email
        ≡ some "ann@x")
auth_token-commits_example =
    auth_token-commits (ann none) (ann (some "token") ∷ []) at_p1 (refl, tt)

abbrev p2 : ProjectInfo
p2 = record { id = "p2"; name = "p2" }

abbrev log_of_ann : List Workspace.Event
log_of_ann =
    committed (ann none)
    ∷ project_given (some "ann@x") (some p2)
    ∷ remounted
    ∷ committed (ann (some "token"))
    ∷ []

run-AgreesOn_example : AgreesOn (run log_of_ann at_p1).seen_email (run log_of_ann at_p1)
run-AgreesOn_example = run-AgreesOn log_of_ann at_p1 tt

commit-answered_test :
    ((given_early p2 at_p1).projects.current_project ≡ some (summary p2))
    × ((commit (ann none) (given_early p2 at_p1)).projects.current_project
        ≡ saved_for (some "ann@x") at_p1.projects)
commit-answered_test = commit-answered (ann none) p2 at_p1 refl

commit-archive_project_example :
    ((archive_project true true at_p1.projects).current_project ≡ none)
    × ((commit (ann none) (returned (archive_project true true) at_p1)).projects.current_project
        ≡ some (project_of "p1"))
commit-archive_project_example =
    commit-archive_project (ann none) (project_of "p1") at_p1 refl
      (unfold get_project_for_user Dict.lookup in refl)

abbrev integration_of : String → Integration
integration_of id = record {
  id = id;
  kind = "slack";
  enabled = true;
  config = "{}";
  created_at = "";
}

abbrev log_of_page : List Exchange
log_of_page =
    slack (integration_of "i1") answered
    ∷ slack (integration_of "i2") (failed 500 (integration_of ""))
    ∷ removal "i1" answered
    ∷ removal "i1" answered
    ∷ git_hub (integration_of "i3") lost
    ∷ []

abbrev two_cases : List TestCaseSummary
two_cases = test_case_of "c1" ∷ test_case_of "c2" ∷ []

members_or_available_example :
    (contains "c1" (case_ids (member_cases (some (suite_of "s1" ("c1" ∷ "c9" ∷ []))) two_cases))
      ≡ contains "c1" (case_ids two_cases)
        && contains "c1" (ids_in (some (suite_of "s1" ("c1" ∷ "c9" ∷ [])))))
    × (contains "c1" (
          case_ids (
            available_cases
              (λ s. s)
              (λ s. s)
              ""
              (some (suite_of "s1" ("c1" ∷ "c9" ∷ [])))
              two_cases))
        ≡ contains "c1" (case_ids two_cases)
          && not (contains "c1" (ids_in (some (suite_of "s1" ("c1" ∷ "c9" ∷ []))))))
members_or_available_example =
    members_or_available (λ s. s) (λ s. s) "" "c1" (some (suite_of "s1" ("c1" ∷ "c9" ∷ [])))
      two_cases refl

abbrev counted : Detail.Event
counted = loaded (came (record (suite_of "s1" ("c1" ∷ [])) { test_count = 1 }, []))

run-IsCountedSuite_test :
    IsCountedSuite
      (Detail.run "p1"
        (counted ∷ added (suite_of "s1" ("c1" ∷ [])) (came ("c1" ∷ "c2" ∷ [])) ∷ [])
        Detail.initial).suite
run-IsCountedSuite_test =
    run-IsCountedSuite "p1"
      (counted ∷ added (suite_of "s1" ("c1" ∷ [])) (came ("c1" ∷ "c2" ∷ [])) ∷ []) Detail.initial
      (refl, (tt, tt)) tt

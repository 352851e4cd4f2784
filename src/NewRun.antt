-- ===== src/NewRun.antt =====
-- The page that starts a run,
-- Frontend/hawkeye-web/src/app/app/(workspace)/[projectId]/runs/new/page.tsx.
pub mod Settled
pub mod Launch
use text.Mathlib.Text.{starts_with}
use project_hawkeye.Base.{
  ℕ, String, Bool, true, false, not, ◌&&◌, List, [], ◌∷◌, Option, none, some, if◌then◌else◌,
  or_else, str_eq, length, ltb,
}
use project_hawkeye.Base.Chars.{behind, slice_from}
use project_hawkeye.Base.Strings.{is_filled, ◌+++◌, includes, truthy}
use project_hawkeye.Settings.{Environment}

pub record DbCase : Type 0 where
  pub id : String
  pub name : String

pub record TestCaseInfo : Type 0 where
  pub id : String
  pub name : String
  pub path : String
  pub goal : String
  pub browser : String
  pub assertions : ℕ

-- `test_cases` is what `useTestCases` gives. `seen_case` is the dependency of the effect that sets the
-- browser when it ran last: the path of `selectedCase`, which finds it in the list.
pub record Page : Type 0 where
  pub selected_value : String
  pub model : String
  pub browser : String
  pub max_steps : ℕ
  pub timeout_seconds : ℕ
  pub recorded : Bool
  pub db_cases : List DbCase
  pub db_cases_access_denied : Bool
  pub environments : List Environment
  pub environment_id : Option String
  pub test_cases : Option (List TestCaseInfo)
  pub seen_case : Option String

-- `preselectedTcId`
abbrev pub initial : Option String → Page
initial preselected = record {
  selected_value = if truthy preselected then "db:" +++ or_else preselected "" else "";
  model = "openrouter:openai/gpt-4o";
  browser = "chromium";
  max_steps = 20;
  timeout_seconds = 300;
  recorded = false;
  db_cases = [];
  db_cases_access_denied = false;
  environments = [];
  environment_id = none;
  test_cases = none;
  seen_case = none;
}

abbrev pub is_db_case : String → Bool
is_db_case value = starts_with value "db:"

abbrev pub selected_db_id : String → Option String
selected_db_id value = if is_db_case value then some (slice_from 3 value) else none

-- `selectedValue.replace(/^yaml:/, "")`, for a value that is not of the database
abbrev pub selected_yaml_path : String → String
selected_yaml_path value =
    if not (is_db_case value) && is_filled value then or_else (behind "yaml:" value) value else ""

unfoldable pub find_path : String → List TestCaseInfo → Option TestCaseInfo
find_path path [] = none
find_path path (tc ∷ rest) = if str_eq tc.path path then some tc else find_path path rest

unfoldable pub selected_case : Page → Option TestCaseInfo
unfolding find_path behind slice_from
selected_case p = elim p.test_cases [
  | none ↦ none
  | some tcs ↦ find_path (selected_yaml_path p.selected_value) tcs
]

-- The first `if` of the effect that selects has been passed.
unfoldable pub select_of : List DbCase → Option (List TestCaseInfo) → Page → Page
select_of (c ∷ rest) tcs p = record p { selected_value = "db:" +++ c.id }
select_of [] none p = p
select_of [] (some []) p = p
select_of [] (some (tc ∷ rest)) p = record p {
  selected_value = "yaml:" +++ tc.path;
  browser = tc.browser;
}

unfoldable pub auto_select : Page → Page
unfolding select_of
auto_select p = if is_filled p.selected_value then p else select_of p.db_cases p.test_cases p

abbrev pub path_of : Option TestCaseInfo → Option String
path_of none = none
path_of (some tc) = some tc.path

unfoldable pub same_case : Option String → Option String → Bool
same_case none none = true
same_case none (some b) = false
same_case (some a) none = false
same_case (some a) (some b) = str_eq a b

-- The effect that sets the browser, with `selectedCase` of the render
unfoldable pub sync_browser : Option TestCaseInfo → Page → Page
unfolding same_case
sync_browser case p = if same_case p.seen_case (path_of case) then p else record p {
  seen_case = path_of case;
  browser = elim case [ none ↦ p.browser | some tc ↦ tc.browser ];
}

-- The effects of one render
unfoldable pub round : Page → Page
unfolding auto_select sync_browser selected_case
round p = sync_browser (selected_case p) (auto_select p)

-- The answers of the mount effect and of `useTestCases`, and what the user picks
pub data Event : Type 0 where
  db_cases_given : List DbCase → Event
  db_cases_failed : (message : String) → Event
  environments_given : List Environment → Event
  test_cases_given : List TestCaseInfo → Event
  value_picked : String → Event
  browser_picked : String → Event
  model_picked : String → Event
  environment_picked : String → Event

unfoldable pub default_of : List Environment → Option String
default_of [] = none
default_of (e ∷ rest) = if e.is_default then some e.id else default_of rest

unfoldable pub on_event : Event → Page → Page
unfolding default_of
on_event (db_cases_given cs) p = record p { db_cases = cs; db_cases_access_denied = false }
on_event (db_cases_failed message) p =
    if includes message "403" then record p { db_cases_access_denied = true } else p
on_event (environments_given envs) p = record p {
  environments = envs;
  environment_id = elim (default_of envs) [ none ↦ p.environment_id | some id ↦ some id ];
}
on_event (test_cases_given tcs) p = record p { test_cases = some tcs }
on_event (value_picked v) p = if is_filled v then record p { selected_value = v } else p
on_event (browser_picked v) p = if is_filled v then record p { browser = v } else p
on_event (model_picked v) p = if is_filled v then record p { model = v } else p
on_event (environment_picked v) p = record p {
  environment_id = if is_filled v then some v else none;
}

-- The argument of `createRun`; `none` is a field that is left out.
pub record RunRequest : Type 0 where
  pub test_case_id : Option String
  pub test_case_path : Option String
  pub model : String
  pub browser : String
  pub recorded : Bool
  pub max_steps : ℕ
  pub timeout : ℕ
  pub environment_id : Option String

abbrev pub can_launch : Bool → Page → Bool
can_launch submitting p = is_filled p.selected_value && not submitting

-- `handleLaunch`
unfoldable pub handle_launch : Page → Option RunRequest
unfolding behind slice_from
handle_launch p =
    if not (is_filled p.selected_value)
    then none
    else let by_id = truthy (selected_db_id p.selected_value) in
      some (record {
        test_case_id = if by_id then selected_db_id p.selected_value else none;
        test_case_path = if by_id then none else some (selected_yaml_path p.selected_value);
        model = p.model;
        browser = p.browser;
        recorded = p.recorded;
        max_steps = p.max_steps;
        timeout = p.timeout_seconds;
        environment_id = if truthy p.environment_id then p.environment_id else none;
      })

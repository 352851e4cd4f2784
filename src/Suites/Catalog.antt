-- ===== src/Suites/Catalog.antt =====
-- The lists of suites and of their test cases: the other handlers of suites/page.tsx, and those of
-- suites/[id]/page.tsx and test-cases/page.tsx beside it.
pub mod Members
use project_hawkeye.Base.{
  ℕ, String, Bool, false, not, ◌&&◌, ◌||◌, List, [], ◌∷◌, Option, none, some, filter, find,
  if◌then◌else◌, str_eq,
}
use project_hawkeye.Base.Strings.{is_filled, includes, contains, ◌+++◌}
use project_hawkeye.Suites.{SuiteSummary, TestCaseSummary, with_ids}

-- What a request comes to: an answer, or the text of its exception.
pub data Reply {ℓ} (T : Type ℓ) : Type ℓ where
  answered : T → Reply T
  threw : (text : String) → Reply T

-- The page of the suites.
pub record Catalog : Type 0 where
  pub suites : List SuiteSummary
  pub all_test_cases : List TestCaseSummary
  pub loading : Bool
  pub error : Option String

-- `loadData`: the two requests are awaited together.
unfoldable pub load_data : Reply (List SuiteSummary × List TestCaseSummary) → Catalog → Catalog
load_data (answered (suites, cases)) c = record c {
  suites = suites;
  all_test_cases = cases;
  loading = false;
}
load_data (threw text) c = record c {
  loading = false;
  error = some (
      if includes text "403"
      then "You don't have access to this project's suites."
      else "Failed to load suites.");
}

-- `handleCreate` and `handleDelete`
unfoldable pub handle_create : Reply SuiteSummary → Catalog → Catalog
handle_create (answered s) c = record c { suites = s ∷ c.suites }
handle_create (threw text) c = c

unfoldable pub handle_delete : String → Reply Bool → Catalog → Catalog
handle_delete id (answered deleted) c = record c {
  suites = filter (λ s. not (str_eq s.id id)) c.suites;
}
handle_delete id (threw text) c = c

-- Where `handleRunNow` goes, or the exception that it throws on.
unfoldable pub handle_run_now : String → Reply ℕ → Reply String
handle_run_now project (answered total) = answered ("/app/" +++ project +++ "/runs/live")
handle_run_now project (threw text) = threw text

-- The page of one suite: `setSuite` after a member is added or removed.
unfoldable pub member_changed : Reply (List String) → Option SuiteSummary → Option SuiteSummary
member_changed answer none = none
member_changed (answered ids) (some s) = some (with_ids ids s)
member_changed (threw text) (some s) = some s

-- The message of `handleAddMember` on an exception.
unfoldable pub add_failure : String → String
add_failure text = if includes text "409" then "Already in suite" else "Failed to add"

-- `suite.test_case_ids.map((id) => allCases.find(...)).filter(Boolean)`
unfoldable pub found_cases : List String → List TestCaseSummary → List TestCaseSummary
found_cases [] cases = []
found_cases (id ∷ ids) cases =
    let rest = found_cases ids cases in
    elim (find (λ (c : TestCaseSummary). str_eq c.id id) cases) [ none ↦ rest | some c ↦ c ∷ rest ]

unfoldable pub member_cases : Option SuiteSummary → List TestCaseSummary → List TestCaseSummary
unfolding found_cases
member_cases none cases = []
member_cases (some s) cases = found_cases s.test_case_ids cases

abbrev pub ids_in : Option SuiteSummary → List String
ids_in none = []
ids_in (some s) = s.test_case_ids

module _ (trim lower : String → String) where
  -- `handleSubmit` of `CreateSuiteModal`: what it creates, if the name is not blank.
  unfoldable pub handle_submit : String → String → Option (String × String)
  handle_submit name description =
      if is_filled (trim name) then some (trim name, trim description) else none

  -- `filtered` of the suites page
  unfoldable pub filtered_suites : String → List SuiteSummary → List SuiteSummary
  filtered_suites q suites =
      let lq = lower (trim q) in
      (if is_filled lq
        then filter (λ s. includes (lower (s.name +++ " " +++ s.description)) lq) suites
        else suites)

  unfoldable pub available_cases :
      String → Option SuiteSummary → List TestCaseSummary → List TestCaseSummary
  available_cases search suite cases =
      let q = lower (trim search) in
      filter
        (λ c.
          not (contains c.id (ids_in suite)) && (not (is_filled q) || includes (lower c.name) q))
        cases

  -- `filtered` of the page of all test cases
  unfoldable pub filtered_cases : String → List TestCaseSummary → List TestCaseSummary
  filtered_cases q cases =
      filter
        (λ c.
          not (str_eq c.status "archived") && (str_eq q "" || includes (lower c.name) (lower q)))
        cases

-- ===== src/Suites/Assign/Unassigned.antt =====
-- The list of test cases that no suite owns, `UnassignedTestCases` of suites/page.tsx.
use project_hawkeye.Base.{
  String, Bool, not, ◌&&◌, ◌||◌, List, [], ◌∷◌, map, filter, any, str_eq, ◌≡◌, refl, ap, ◌∙◌, arith,
  Bool-cases, inl, inr,
}
use project_hawkeye.Base.Strings.{contains, contains-append}
use project_hawkeye.Suites.{SuiteSummary, TestCaseSummary, owns}
use project_hawkeye.Suites.Assign.{assigned_ids, unassigned}
use project_hawkeye.Suites.Assign.Updates.{same_test}

contains-assigned_ids :
    (id : String) (all : List SuiteSummary) → contains id (assigned_ids all) ≡ any (owns id) all
unfolding assigned_ids contains
contains-assigned_ids id [] = refl
contains-assigned_ids id (s ∷ rest) =
    contains-append id s.test_case_ids (assigned_ids rest)
    ∙ ap (contains id s.test_case_ids ||◌) (contains-assigned_ids id rest)

abbrev pub case_ids : List TestCaseSummary → List String
case_ids = map (λ (t : TestCaseSummary). t.id)

pub contains-case_ids-filter :
    (p : String → Bool) (id : String) (all : List TestCaseSummary)
    → contains id (case_ids (filter (λ t. p t.id) all)) ≡ contains id (case_ids all) && p id
unfolding contains
contains-case_ids-filter p id [] = refl
contains-case_ids-filter p id (t ∷ rest) = elim (Bool-cases (str_eq t.id id)) [
  | inl same ↦ ground (arith, contains-case_ids-filter p id rest, same_test p t.id id same)
  | inr other ↦ ground (arith, contains-case_ids-filter p id rest)
]

-- The list of unassigned test cases has exactly the listed test cases that no suite owns.
pub unassigned_lem :
    (id : String) (all : List TestCaseSummary) (suites : List SuiteSummary)
    → contains id (case_ids (unassigned all suites))
      ≡ contains id (case_ids all) && not (any (owns id) suites)
unfolding unassigned
unassigned_lem id all suites =
    contains-case_ids-filter (λ x. not (contains x (assigned_ids suites))) id all
    ∙ ap (λ b. contains id (case_ids all) && not b) (contains-assigned_ids id suites)

-- ===== src/Suites/Catalog/Members.antt =====
-- The two lists of test cases on the page of a suite: its members, and those that can be added.
use project_hawkeye.Base.{
  String, true, false, not, ◌&&◌, ◌||◌, List, [], ◌∷◌, filter, find, Option, none, some, str_eq,
  eq_iff, ◌≡◌, refl, sym, ap, ◌∙◌, arith, Option-cases, Bool-cases, inl, inr,
}
use project_hawkeye.Base.Strings.{contains, is_filled, includes}
use project_hawkeye.Suites.{SuiteSummary, TestCaseSummary}
use project_hawkeye.Suites.Assign.Unassigned.{case_ids, contains-case_ids-filter}
use project_hawkeye.Suites.Catalog.{found_cases, member_cases, available_cases, ids_in}

abbrev find_case : String → List TestCaseSummary → Option TestCaseSummary
find_case id cases = find (λ (c : TestCaseSummary). str_eq c.id id) cases

contains_of_unfound :
    (id : String) (cases : List TestCaseSummary)
    → find_case id cases ≡ none
    → contains id (case_ids cases) ≡ false
unfolding contains
contains_of_unfound id [] h = refl
contains_of_unfound id (c ∷ cases) h = ground (arith, contains_of_unfound id cases)

found_case :
    (id : String) (cases : List TestCaseSummary) (c : TestCaseSummary)
    → find_case id cases ≡ some c
    → (c.id ≡ id) × (contains id (case_ids cases) ≡ true)
unfolding contains
found_case id [] c h = cc
found_case id (d ∷ cases) c h = elim (Bool-cases (str_eq d.id id)) [
  | inl same ↦ ground (arith, eq_iff d.id id)
  | inr other ↦ ground (arith, found_case id cases c)
]

found_cases_of_absent :
    (id : String) (ids : List String) (cases : List TestCaseSummary)
    → find_case id cases ≡ none
    → found_cases (id ∷ ids) cases ≡ found_cases ids cases
unfolding found_cases
found_cases_of_absent id ids cases h = rw (h, found_cases) refl

found_cases_of_found :
    (id : String) (ids : List String) (cases : List TestCaseSummary) (c : TestCaseSummary)
    → find_case id cases ≡ some c
    → found_cases (id ∷ ids) cases ≡ c ∷ found_cases ids cases
unfolding found_cases
found_cases_of_found id ids cases c h = rw (h, found_cases) refl

-- The identifiers that are asked for and listed
contains-found_cases :
    (x : String) (ids : List String) (cases : List TestCaseSummary)
    → contains x (case_ids (found_cases ids cases)) ≡ contains x (case_ids cases) && contains x ids
unfolding contains found_cases
contains-found_cases x [] cases = ground arith
contains-found_cases x (id ∷ ids) cases = elim (Option-cases (find_case id cases)) [
  | inl absent ↦
      let gone = contains_of_unfound id cases absent in
      let here : str_eq id x ≡ true → contains x (case_ids cases) ≡ false =
        λ same. ap (λ y. contains y (case_ids cases)) (sym ((eq_iff id x).0 same)) ∙ gone in
      ap (λ found. contains x (case_ids found)) (found_cases_of_absent id ids cases absent)
      ∙ elim (Bool-cases (str_eq id x)) [
        | inl same ↦ (let no_x = here same in ground (arith, contains-found_cases x ids cases))
        | inr other ↦ ground (arith, contains-found_cases x ids cases)
      ]
  | inr (c, there) ↦
      let (same, listed) = found_case id cases c there in
      ap (λ found. contains x (case_ids found)) (found_cases_of_found id ids cases c there)
      ∙ elim (Bool-cases (str_eq id x)) [
        | inl is ↦
            let has_x : contains x (case_ids cases) ≡ true =
              ap (λ y. contains y (case_ids cases)) (sym ((eq_iff id x).0 is)) ∙ listed in
            let c_is : str_eq c.id x ≡ true = ap (λ y. str_eq y x) same ∙ is in
            ground (arith, contains-found_cases x ids cases)
        | inr other ↦
            let c_other : str_eq c.id x ≡ false = ap (λ y. str_eq y x) same ∙ other in
            ground (arith, contains-found_cases x ids cases)
      ]
]

contains-member_cases :
    (x : String) (suite : Option SuiteSummary) (cases : List TestCaseSummary)
    → contains x (case_ids (member_cases suite cases))
      ≡ contains x (case_ids cases) && contains x (ids_in suite)
unfolding member_cases contains
contains-member_cases x none cases = ground arith
contains-member_cases x (some s) cases = contains-found_cases x s.test_case_ids cases

-- Both lists of the page, while nothing is searched: a test case that was loaded is among the members
-- if the suite has its identifier, and among those that can be added if not; no other one is listed.
-- So a member that was not loaded, as an archived one, stands in neither.
pub members_or_available :
    (trim lower : String → String) (search x : String) (suite : Option SuiteSummary)
    (cases : List TestCaseSummary)
    → is_filled (lower (trim search)) ≡ false
    → (contains x (case_ids (member_cases suite cases))
        ≡ contains x (case_ids cases) && contains x (ids_in suite))
      × (contains x (case_ids (available_cases trim lower search suite cases))
          ≡ contains x (case_ids cases) && not (contains x (ids_in suite)))
unfolding available_cases
members_or_available trim lower search x suite cases blank =
    let q = lower (trim search) in
    let same : (c : TestCaseSummary)
        → not (contains c.id (ids_in suite)) && (not (is_filled q) || includes (lower c.name) q)
          ≡ not (contains c.id (ids_in suite)) =
      λ c. ground arith in
    (
      contains-member_cases x suite cases,
      (λ i. contains x (case_ids (filter (λ c. same c i) cases)))
          ∙ contains-case_ids-filter (λ y. not (contains y (ids_in suite))) x cases,
    )

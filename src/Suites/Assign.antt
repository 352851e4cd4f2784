-- ===== src/Suites/Assign.antt =====
-- Which suite owns which test case: `ManageTestCasesModal`, `MoveSuiteModal`, `UnassignedTestCases`,
-- `handleSaveTestCases` and `handleMoveTc` of suites/page.tsx. A handler's result is the list of the
-- updates that it sends; they run in parallel.
pub mod Updates
pub mod Moves
pub mod Ownership
pub mod Unassigned
pub mod Selection
use project_hawkeye.Base.{
  ℕ, String, Bool, true, false, not, ◌&&◌, ◌||◌, List, [], ◌∷◌, ◌++◌, map, Option, none, some,
  filter, find, any, length, if◌then◌else◌, ◌==◌, str_eq, is_some,
}
use project_hawkeye.Base.Dict
use project_hawkeye.Base.Dict.{Dict}
use project_hawkeye.Base.Strings.{contains, truthy}
use project_hawkeye.Suites.{SuiteSummary, TestCaseSummary, owns, with_ids}

-- One `updateSuite(projectId, suite, { test_case_ids: ids })`.
pub record Update : Type 0 where
  pub suite : String
  pub ids : List String

-- `for (const id of ids) map.set(id, name)`
unfoldable pub set_all : List String → String → Dict String → Dict String
set_all [] name m = m
set_all (id ∷ ids) name m = set_all ids name (Dict.set id name m)

-- `ownedByOther`: test cases of the other suites, with the name of the last that lists them.
unfoldable pub owned_by_other_from : String → List SuiteSummary → Dict String → Dict String
unfolding set_all
owned_by_other_from suite [] m = m
owned_by_other_from suite (s ∷ rest) m =
    owned_by_other_from suite rest
      (if str_eq s.id suite then m else set_all s.test_case_ids s.name m)

unfoldable pub owned_by_other : String → List SuiteSummary → Dict String
unfolding owned_by_other_from
owned_by_other suite all = owned_by_other_from suite all []

-- `toggle(id)` on the selected set, which keeps the order of insertion.
unfoldable pub toggle : String → List SuiteSummary → String → List String → List String
unfolding owned_by_other
toggle suite all id selected =
    if is_some (Dict.lookup id (owned_by_other suite all))
    then selected
    else if contains id selected
    then filter (λ x. not (str_eq x id)) selected
    else selected ++ id ∷ []

-- A session of the dialog: the identifiers that are clicked.
unfoldable pub toggles : String → List SuiteSummary → List String → List String → List String
unfolding toggle
toggles suite all [] selected = selected
toggles suite all (id ∷ rest) selected = toggles suite all rest (toggle suite all id selected)

-- `ids.filter((id) => s.test_case_ids.includes(id))`
abbrev pub stolen : List String → SuiteSummary → List String
stolen ids s = filter (λ id. owns id s) ids

-- The loop of `handleSaveTestCases` over the other suites.
unfoldable pub steals : String → List String → List SuiteSummary → List Update
steals suite ids [] = []
steals suite ids (s ∷ rest) =
    if str_eq s.id suite || length (stolen ids s) == 0
    then steals suite ids rest
    else record {
      suite = s.id;
      ids = filter (λ id. not (contains id (stolen ids s))) s.test_case_ids;
    }
      ∷ steals suite ids rest

unfoldable pub save_test_cases : String → List String → List SuiteSummary → List Update
unfolding steals
save_test_cases suite ids all = record { suite = suite; ids = ids } ∷ steals suite ids all

-- `[...new Set([...ids, id])]`
unfoldable pub unique : List String → List String → List String
unique seen [] = []
unique seen (x ∷ rest) =
    if contains x seen then unique seen rest else x ∷ unique (seen ++ x ∷ []) rest

-- `MoveSuiteModal`: the suite that has the test case now.
unfoldable pub current_suite : String → List SuiteSummary → Option SuiteSummary
current_suite tc all = find (owns tc) all

-- The two halves of `handleMoveTc`. A suite that is named and is not there makes it throw.
unfoldable pub leave : String → Option String → List SuiteSummary → Option (List Update)
leave tc none all = some []
leave tc (some from) all =
    if str_eq from "" then some [] else elim (find (λ s. str_eq s.id from) all) [
      | none ↦ none
      | some s ↦
          some
            (record { suite = from; ids = filter (λ id. not (str_eq id tc)) s.test_case_ids } ∷ [])
    ]

unfoldable pub join : String → Option String → List SuiteSummary → Option (List Update)
unfolding unique
join tc none all = some []
join tc (some to) all = if str_eq to "" then some [] else elim (find (λ s. str_eq s.id to) all) [
  | none ↦ none
  | some s ↦ some (record { suite = to; ids = unique [] (s.test_case_ids ++ tc ∷ []) } ∷ [])
]

-- What `handleMoveTc` has sent when it ends, and whether it threw.
pub record Move : Type 0 where
  pub sent : List Update
  pub threw : Bool

abbrev pub both : Option (List Update) → Option (List Update) → Move
both none joined = record { sent = []; threw = true }
both (some us) none = record { sent = us; threw = true }
both (some us) (some vs) = record { sent = us ++ vs; threw = false }

unfoldable pub move_test_case : String → Option String → Option String → List SuiteSummary → Move
move_test_case tc from to all = both (leave tc from all) (join tc to all)

-- The button of `MoveSuiteModal`.
unfoldable pub can_move : Bool → Option String → Option SuiteSummary → Bool
can_move saving none current = false
can_move saving (some target) current =
    not saving
    && not (str_eq target "")
    && elim current [ none ↦ true | some s ↦ not (str_eq target s.id) ]

-- `UnassignedTestCases`
unfoldable pub assigned_ids : List SuiteSummary → List String
assigned_ids [] = []
assigned_ids (s ∷ rest) = s.test_case_ids ++ assigned_ids rest

unfoldable pub unassigned : List TestCaseSummary → List SuiteSummary → List TestCaseSummary
unfolding assigned_ids
unassigned all suites = filter (λ tc. not (contains tc.id (assigned_ids suites))) all

-- What the server's suites are after an update, and after several.
abbrev pub apply_each : Update → SuiteSummary → SuiteSummary
apply_each u s = if str_eq s.id u.suite then with_ids u.ids s else s

unfoldable pub apply : Update → List SuiteSummary → List SuiteSummary
apply u all = map (apply_each u) all

unfoldable pub apply_all : List Update → List SuiteSummary → List SuiteSummary
unfolding apply
apply_all [] all = all
apply_all (u ∷ us) all = apply_all us (apply u all)

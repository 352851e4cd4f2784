-- ===== src/Suites/Assign/Selection.antt =====
-- The dialog that selects a suite's test cases, and what its save asks of the other suites.
use project_hawkeye.Base.{
  String, Bool, false, not, ◌&&◌, ◌||◌, List, [], ◌∷◌, any, length, All, All-append, All-filter,
  str_eq, ◌≡◌, refl, ap, ◌∙◌, arith, Bool-cases, inl, inr, is_some,
}
use project_hawkeye.Base.Dict
use project_hawkeye.Base.Dict.{Dict, lookup-set}
use project_hawkeye.Base.Strings.{contains}
use project_hawkeye.Suites.{SuiteSummary, owns}
use project_hawkeye.Suites.Assign.{
  stolen, steals, save_test_cases, set_all, owned_by_other, owned_by_other_from, toggle, toggles,
}

-- The row of a test case is locked: some other suite lists it.
abbrev pub is_taken : String → List SuiteSummary → String → Bool
is_taken suite all id = any (λ s. not (str_eq s.id suite) && owns id s) all

lookup-set_all :
    (k : String) (ids : List String) (name : String) (m : Dict String)
    → is_some (Dict.lookup k (set_all ids name m)) ≡ contains k ids || is_some (Dict.lookup k m)
unfolding set_all contains
lookup-set_all k [] name m = refl
lookup-set_all k (id ∷ ids) name m =
    ground (arith, lookup-set_all k ids name (Dict.set id name m), lookup-set id k name m)

lookup-owned_by_other_from :
    (suite id : String) (all : List SuiteSummary) (m : Dict String)
    → is_some (Dict.lookup id (owned_by_other_from suite all m))
      ≡ is_taken suite all id || is_some (Dict.lookup id m)
unfolding owned_by_other_from
lookup-owned_by_other_from suite id [] m = refl
lookup-owned_by_other_from suite id (s ∷ rest) m = elim (Bool-cases (str_eq s.id suite)) [
  | inl same ↦ rw same (lookup-owned_by_other_from suite id rest m)
  | inr other ↦ rw other (
      lookup-owned_by_other_from suite id rest (set_all s.test_case_ids s.name m)
      ∙ ground (arith, lookup-set_all id s.test_case_ids s.name m))
]

-- The dialog's map has a name for exactly the test cases that some other suite lists.
pub lookup-owned_by_other :
    (suite id : String) (all : List SuiteSummary)
    → is_some (Dict.lookup id (owned_by_other suite all)) ≡ is_taken suite all id
unfolding owned_by_other Dict.lookup
lookup-owned_by_other suite id all = lookup-owned_by_other_from suite id all [] ∙ ground arith

-- Only free test cases.
abbrev pub Free : String → List SuiteSummary → List String → Type 0
Free suite all = All (λ id. is_taken suite all id ≡ false)

toggle-Free :
    (suite : String) (all : List SuiteSummary) (id : String) (selected : List String)
    → Free suite all selected
    → Free suite all (toggle suite all id selected)
unfolding toggle
toggle-Free suite all id selected h =
    let found = lookup-owned_by_other suite id all in
    elim (Bool-cases (is_taken suite all id)) [
      | inl taken ↦ rw (found ∙ taken) h
      | inr free ↦ elim (Bool-cases (contains id selected)) [
        | inl chosen ↦
            rw (found ∙ free, chosen)
              (All-filter (λ x. is_taken suite all x ≡ false) (λ x. not (str_eq x id)) selected h)
        | inr new ↦
            rw (found ∙ free, new)
              (All-append (λ x. is_taken suite all x ≡ false) selected (id ∷ []) h (free, tt))
      ]
    ]

toggles-Free :
    (suite : String) (all : List SuiteSummary) (clicks selected : List String)
    → Free suite all selected
    → Free suite all (toggles suite all clicks selected)
unfolding toggles
toggles-Free suite all [] selected h = h
toggles-Free suite all (id ∷ rest) selected h =
    toggles-Free suite all rest (toggle suite all id selected) (toggle-Free suite all id selected h)

-- The suites that follow take nothing, either.
stolen_of_Free :
    (suite : String) (s : SuiteSummary) (rest : List SuiteSummary) (ids : List String)
    → Free suite (s ∷ rest) ids
    → str_eq s.id suite ≡ false
    → stolen ids s ≡ []
stolen_of_Free suite s rest [] h other = refl
stolen_of_Free suite s rest (id ∷ ids) (p, h) other =
    ground (arith, stolen_of_Free suite s rest ids h other)

Free-of_tail :
    (suite : String) (s : SuiteSummary) (rest : List SuiteSummary) (ids : List String)
    → Free suite (s ∷ rest) ids
    → Free suite rest ids
Free-of_tail suite s rest [] h = tt
Free-of_tail suite s rest (id ∷ ids) (p, h) = (ground arith, Free-of_tail suite s rest ids h)

steals_of_Free :
    (suite : String) (ids : List String) (all : List SuiteSummary)
    → Free suite all ids
    → steals suite ids all ≡ []
unfolding steals
steals_of_Free suite ids [] h = refl
steals_of_Free suite ids (s ∷ rest) h = elim (Bool-cases (str_eq s.id suite)) [
  | inl same ↦ rw same (steals_of_Free suite ids rest (Free-of_tail suite s rest ids h))
  | inr other ↦
      rw (other, ap length (stolen_of_Free suite s rest ids h other))
        (steals_of_Free suite ids rest (Free-of_tail suite s rest ids h))
]

-- When the dialog opens with test cases that no other suite lists, then whatever is clicked in it, a
-- save sends the update of its own suite and no update of another.
pub save-toggles :
    (suite : String) (all : List SuiteSummary) (clicks selected : List String)
    → Free suite all selected
    → save_test_cases suite (toggles suite all clicks selected) all
      ≡ record { suite = suite; ids = toggles suite all clicks selected } ∷ []
unfolding save_test_cases
save-toggles suite all clicks selected h =
    ap (record { suite = suite; ids = toggles suite all clicks selected } ∷◌) (
      steals_of_Free suite (toggles suite all clicks selected) all
        (toggles-Free suite all clicks selected h))

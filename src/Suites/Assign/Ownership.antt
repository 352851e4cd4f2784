-- ===== src/Suites/Assign/Ownership.antt =====
-- The suites that own a test case, after a save and after a move.
use project_hawkeye.Base.{
  ℕ, suc, ◌≤◌, String, Bool, true, false, List, [], ◌∷◌, map, find, count_by, if◌then◌else◌, str_eq,
  eq_iff, ◌≡◌, refl, sym, ap, ◌∙◌, arith, Bool-cases, inl, inr, none, some,
}
use project_hawkeye.Base.Strings.{contains, contains-append}
use project_hawkeye.Base.Strings
use project_hawkeye.Suites.{SuiteSummary, owns}
use project_hawkeye.Suites.Assign.{save_test_cases, apply_all, move_test_case}
use project_hawkeye.Suites.Assign.Updates.{
  suite_ids, owns_saved, owns-save_test_cases, same_map, map-map-owns, apply_each_all,
  apply_all-map,
}
use project_hawkeye.Suites.Assign.Moves.{
  owns_moved, leaves, joins, moved-All, found-IsOf, leave-found, join-found, join-unlisted,
}

-- How many of the tests hold.
abbrev trues : List Bool → ℕ
trues [] = 0
trues (b ∷ bs) = if b then suc (trues bs) else trues bs

count_by-trues :
    (id : String) (all : List SuiteSummary) → count_by (owns id) all ≡ trues (map (owns id) all)
count_by-trues id [] = refl
count_by-trues id (s ∷ rest) = ground (arith, count_by-trues id rest)

none_saved :
    (suite : String) (ids : List String) (id : String) (all : List SuiteSummary)
    → contains suite (suite_ids all) ≡ false
    → contains id ids ≡ true
    → trues (map (owns_saved suite ids id) all) ≡ 0
unfolding contains
none_saved suite ids id [] h k = refl
none_saved suite ids id (s ∷ rest) h k = ground (arith, none_saved suite ids id rest)

trues_of_saved :
    (suite : String) (ids : List String) (id : String) (all : List SuiteSummary)
    → Strings.Distinct (suite_ids all)
    → contains id ids ≡ true
    → trues (map (owns_saved suite ids id) all) ≤ 1
unfolding contains
trues_of_saved suite ids id [] d k = omega arith
trues_of_saved suite ids id (s ∷ rest) (new, d) k = elim (Bool-cases (str_eq s.id suite)) [
  | inl same ↦
      let e : s.id ≡ suite = ground (arith, eq_iff s.id suite) in
      ground (arith, none_saved suite ids id rest (rw (sym e) new) k)
  | inr other ↦ ground (arith, trues_of_saved suite ids id rest d k)
]

trues_of_unsaved :
    (suite : String) (ids : List String) (id : String) (all : List SuiteSummary)
    → contains id ids ≡ false
    → trues (map (owns_saved suite ids id) all) ≤ trues (map (owns id) all)
trues_of_unsaved suite ids id [] k = omega arith
trues_of_unsaved suite ids id (s ∷ rest) k = ground (arith, trues_of_unsaved suite ids id rest k)

-- When suite identifiers are distinct and a test case is in one suite at most, it is in one suite
-- at most after any save, of any suite with any list of test cases.
pub owners-save_test_cases :
    (suite : String) (ids : List String) (id : String) (all : List SuiteSummary)
    → Strings.Distinct (suite_ids all)
    → count_by (owns id) all ≤ 1
    → count_by (owns id) (apply_all (save_test_cases suite ids all) all) ≤ 1
owners-save_test_cases suite ids id all d one =
    let after = apply_all (save_test_cases suite ids all) all in
    let e = ap trues (owns-save_test_cases suite ids id all d) in
    elim (Bool-cases (contains id ids)) [
      | inl saved ↦
          omega (arith, count_by-trues id after, e, trues_of_saved suite ids id all d saved)
      | inr unsaved ↦ omega (
        arith,
        count_by-trues id after,
        count_by-trues id all,
        e,
        trues_of_unsaved suite ids id all unsaved,
      )
    ]

-- A move from one named suite to a different one, both listed, with distinct suite identifiers: it
-- does not throw, and afterwards the first suite owns what it owned less the test case, the second
-- what it owned and the test case, and every other suite what it owned.
pub move_test_case_lem :
    (tc from to id : String) (a b : SuiteSummary) (all : List SuiteSummary)
    → Strings.Distinct (suite_ids all)
    → find (λ s. str_eq s.id from) all ≡ some a
    → find (λ s. str_eq s.id to) all ≡ some b
    → str_eq from "" ≡ false
    → str_eq to "" ≡ false
    → str_eq from to ≡ false
    → ((move_test_case tc (some from) (some to) all).threw ≡ false)
      × (map (owns id) (apply_all (move_test_case tc (some from) (some to) all).sent all)
          ≡ map (owns_moved tc from to id) all)
unfolding move_test_case
move_test_case_lem tc from to id a b all d fa fb named named' apart =
    let us = leaves tc from a ∷ joins tc to b ∷ [] in
    let moved : map (owns id) (apply_all us all) ≡ map (owns_moved tc from to id) all =
      ap (map (owns id)) (apply_all-map us all)
      ∙ map-map-owns id (apply_each_all us) all
      ∙ same_map (λ s. owns id (apply_each_all us s)) (owns_moved tc from to id) all
          (moved-All tc from to id a b all apart (found-IsOf from a all d fa)
            (found-IsOf to b all d fb)) in
    rw (leave-found tc from a all named fa, join-found tc to b all named' fb) (refl, moved)

-- A move to a suite that the page does not list throws after it has taken the test case out of the
-- first suite: the one update that is sent is that removal.
pub move_test_case_of_unlisted :
    (tc from to : String) (a : SuiteSummary) (all : List SuiteSummary)
    → find (λ s. str_eq s.id from) all ≡ some a
    → find (λ s. str_eq s.id to) all ≡ none
    → str_eq from "" ≡ false
    → str_eq to "" ≡ false
    → ((move_test_case tc (some from) (some to) all).threw ≡ true)
      × ((move_test_case tc (some from) (some to) all).sent ≡ leaves tc from a ∷ [])
unfolding move_test_case
move_test_case_of_unlisted tc from to a all fa fb named named' =
    rw (leave-found tc from a all named fa, join-unlisted tc to all named' fb) (refl, refl)

-- ===== src/Suites/Assign/Updates.antt =====
-- What the updates of a save do to each suite.
use project_hawkeye.Base.{
  String, Bool, true, false, not, ◌&&◌, ◌||◌, List, [], ◌∷◌, map, filter, length, All,
  if◌then◌else◌, ◌==◌, str_eq, eq_iff, ◌≡◌, refl, sym, ap, ◌∙◌, arith, Bool-cases, inl, inr,
}
use project_hawkeye.Base.Strings.{contains}
use project_hawkeye.Base.Strings
use project_hawkeye.Suites.{SuiteSummary, owns, with_ids}
use project_hawkeye.Suites.Assign.{
  Update, stolen, steals, save_test_cases, apply_each, apply, apply_all,
}

abbrev pub suite_ids : List SuiteSummary → List String
suite_ids = map (λ (s : SuiteSummary). s.id)

-- What several updates make of one suite.
abbrev pub apply_each_all : List Update → SuiteSummary → SuiteSummary
apply_each_all [] s = s
apply_each_all (u ∷ us) s = apply_each_all us (apply_each u s)

map-map_lem :
    (f g : SuiteSummary → SuiteSummary) (xs : List SuiteSummary)
    → map g (map f xs) ≡ map (λ s. g (f s)) xs
map-map_lem f g [] = refl
map-map_lem f g (x ∷ xs) = ap (g (f x) ∷◌) (map-map_lem f g xs)

map-id_lem : (xs : List SuiteSummary) → map (λ s. s) xs ≡ xs
map-id_lem [] = refl
map-id_lem (x ∷ xs) = ap (x ∷◌) (map-id_lem xs)

pub apply_all-map :
    (us : List Update) (all : List SuiteSummary) → apply_all us all ≡ map (apply_each_all us) all
unfolding apply_all apply
apply_all-map [] all = sym (map-id_lem all)
apply_all-map (u ∷ us) all =
    apply_all-map us (map (apply_each u) all) ∙ map-map_lem (apply_each u) (apply_each_all us) all

pub id-apply_each_all : (us : List Update) (s : SuiteSummary) → (apply_each_all us s).id ≡ s.id
id-apply_each_all [] s = refl
id-apply_each_all (u ∷ us) s = id-apply_each_all us (apply_each u s) ∙ ground arith

-- Updates of other suites leave a suite alone.
abbrev Spares : String → List Update → Type 0
Spares id [] = Unit
Spares id (u ∷ us) = (str_eq id u.suite ≡ false) × Spares id us

apply_each_all_of_Spares :
    (us : List Update) (s : SuiteSummary) → Spares s.id us → apply_each_all us s ≡ s
apply_each_all_of_Spares [] s h = refl
apply_each_all_of_Spares (u ∷ us) s (other, h) = rw other (apply_each_all_of_Spares us s h)

steals-Spares :
    (suite : String) (ids : List String) (all : List SuiteSummary) (id : String)
    → contains id (suite_ids all) ≡ false
    → Spares id (steals suite ids all)
unfolding steals contains
steals-Spares suite ids [] id h = tt
steals-Spares suite ids (s ∷ rest) id h =
    ground (arith, steals-Spares suite ids rest id, eq_iff s.id id, eq_iff id s.id)

-- A suite with the given identifier is not touched by the thefts, either.
steals-Spares_self :
    (suite : String) (ids : List String) (all : List SuiteSummary)
    → Spares suite (steals suite ids all)
unfolding steals
steals-Spares_self suite ids [] = tt
steals-Spares_self suite ids (s ∷ rest) =
    ground (arith, steals-Spares_self suite ids rest, eq_iff s.id suite, eq_iff suite s.id)

contains-stolen :
    (id : String) (ids : List String) (s : SuiteSummary)
    → contains id (stolen ids s) ≡ contains id ids && owns id s
unfolding contains
contains-stolen id [] s = refl
contains-stolen id (x ∷ ids) s = ground (arith, contains-stolen id ids s, eq_iff x id)

pub same_test : (p : String → Bool) (x y : String) → str_eq x y ≡ true → p x ≡ p y
same_test p x y h = let same : x ≡ y = ground (arith, eq_iff x y) in ap p same

pub contains-filter :
    (p : String → Bool) (id : String) (xs : List String)
    → contains id (filter p xs) ≡ contains id xs && p id
unfolding contains
contains-filter p id [] = refl
contains-filter p id (x ∷ xs) = elim (Bool-cases (str_eq x id)) [
  | inl same ↦ ground (arith, contains-filter p id xs, same_test p x id same)
  | inr other ↦ ground (arith, contains-filter p id xs)
]

-- Whether a suite owns a test case when a save is done.
abbrev pub owns_saved : String → List String → String → SuiteSummary → Bool
owns_saved suite ids id s =
    if str_eq s.id suite then contains id ids else owns id s && not (contains id ids)

owns_left :
    (ids : List String) (id : String) (s : SuiteSummary)
    → contains id (filter (λ x. not (contains x (stolen ids s))) s.test_case_ids)
      ≡ owns id s && not (contains id ids)
owns_left ids id s = ground (
  arith,
  contains-filter (λ x. not (contains x (stolen ids s))) id s.test_case_ids,
  contains-stolen id ids s,
)

contains_of_empty :
    (id : String) (xs : List String) → (length xs == 0) ≡ true → contains id xs ≡ false
unfolding contains
contains_of_empty id [] h = refl
contains_of_empty id (x ∷ xs) h = ground arith

owns_spared :
    (ids : List String) (id : String) (s : SuiteSummary)
    → (length (stolen ids s) == 0) ≡ true
    → owns id s ≡ owns id s && not (contains id ids)
owns_spared ids id s h =
    ground (arith, contains_of_empty id (stolen ids s) h, contains-stolen id ids s)

-- What the thefts alone leave to a suite.
abbrev owns_robbed : String → List String → String → SuiteSummary → Bool
owns_robbed suite ids id s =
    if str_eq s.id suite then owns id s else owns id s && not (contains id ids)

pub apply_own :
    (u : Update) (s : SuiteSummary) → str_eq s.id u.suite ≡ true → apply_each u s ≡ with_ids u.ids s
apply_own u s h = rw h refl

pub apply_other : (u : Update) (s : SuiteSummary) → str_eq s.id u.suite ≡ false → apply_each u s ≡ s
apply_other u s h = rw h refl

robbed_head :
    (suite : String) (ids : List String) (id : String) (s : SuiteSummary) (rest : List SuiteSummary)
    → contains s.id (suite_ids rest) ≡ false
    → owns id (apply_each_all (steals suite ids (s ∷ rest)) s) ≡ owns_robbed suite ids id s
unfolding steals
robbed_head suite ids id s rest h =
    let self : str_eq s.id s.id ≡ true = ground (arith, eq_iff s.id s.id) in
    let alone : Spares s.id (steals suite ids rest) = steals-Spares suite ids rest s.id h in
    let keeps = filter (λ x. not (contains x (stolen ids s))) s.test_case_ids in
    elim (Bool-cases (str_eq s.id suite)) [
      | inl same ↦ rw same (ap (owns id) (apply_each_all_of_Spares (steals suite ids rest) s alone))
      | inr other ↦ elim (Bool-cases (length (stolen ids s) == 0)) [
        | inl nothing ↦
            rw (other, nothing)
              (ap (owns id) (apply_each_all_of_Spares (steals suite ids rest) s alone)
                ∙ owns_spared ids id s nothing)
        | inr something ↦
            rw (other, something)
              (ap (λ t. owns id (apply_each_all (steals suite ids rest) t))
                  (apply_own (record { suite = s.id; ids = keeps }) s self)
                ∙ ap (owns id)
                    (apply_each_all_of_Spares (steals suite ids rest) (with_ids keeps s) alone)
                ∙ owns_left ids id s)
      ]
    ]

robbed_tail :
    (suite : String) (ids : List String) (id : String) (s : SuiteSummary)
    (rest ys : List SuiteSummary)
    → contains s.id (suite_ids ys) ≡ false
    → All (λ y. owns id (apply_each_all (steals suite ids rest) y) ≡ owns_robbed suite ids id y) ys
    → All
        (λ y. owns id (apply_each_all (steals suite ids (s ∷ rest)) y) ≡ owns_robbed suite ids id y)
        ys
unfolding steals contains
robbed_tail suite ids id s rest [] h k = tt
robbed_tail suite ids id s rest (y ∷ ys) h (q, k) =
    let other : str_eq y.id s.id ≡ false = ground arith in
    let one : owns id (apply_each_all (steals suite ids (s ∷ rest)) y)
        ≡ owns_robbed suite ids id y =
      elim (Bool-cases (str_eq s.id suite || length (stolen ids s) == 0)) [
        | inl passed ↦ rw passed q
        | inr robs ↦ rw robs (
            ap (λ t. owns id (apply_each_all (steals suite ids rest) t))
              (apply_other
                (record {
                  suite = s.id;
                  ids = filter (λ x. not (contains x (stolen ids s))) s.test_case_ids;
                })
                y other)
            ∙ q)
      ] in
    (one, robbed_tail suite ids id s rest ys (ground arith) k)

robbed :
    (suite : String) (ids : List String) (id : String) (all : List SuiteSummary)
    → Strings.Distinct (suite_ids all)
    → All (λ s. owns id (apply_each_all (steals suite ids all) s) ≡ owns_robbed suite ids id s) all
robbed suite ids id [] d = tt
robbed suite ids id (s ∷ rest) (new, d) = (
  robbed_head suite ids id s rest new,
  robbed_tail suite ids id s rest rest new (robbed suite ids id rest d),
)

saved_each :
    (suite : String) (ids : List String) (id : String) (all : List SuiteSummary) (s : SuiteSummary)
    → owns id (apply_each_all (steals suite ids all) s) ≡ owns_robbed suite ids id s
    → owns id (apply_each_all (save_test_cases suite ids all) s) ≡ owns_saved suite ids id s
unfolding save_test_cases
saved_each suite ids id all s h = elim (Bool-cases (str_eq s.id suite)) [
  | inl same ↦
      let e : s.id ≡ suite = ground (arith, eq_iff s.id suite) in
      let alone : Spares s.id (steals suite ids all) = rw e (steals-Spares_self suite ids all) in
      ap (λ t. owns id (apply_each_all (steals suite ids all) t))
        (apply_own (record { suite = suite; ids = ids }) s same)
      ∙ ap (owns id) (apply_each_all_of_Spares (steals suite ids all) (with_ids ids s) alone)
      ∙ rw same refl
  | inr other ↦
      ap (λ t. owns id (apply_each_all (steals suite ids all) t))
        (apply_other (record { suite = suite; ids = ids }) s other)
      ∙ h
      ∙ rw other refl
]

pub same_map :
    (f g : SuiteSummary → Bool) (xs : List SuiteSummary)
    → All (λ s. f s ≡ g s) xs
    → map f xs ≡ map g xs
same_map f g [] h = refl
same_map f g (x ∷ xs) (e, h) = ap (◌∷ map f xs) e ∙ ap (g x ∷◌) (same_map f g xs h)

saved-All :
    (suite : String) (ids : List String) (id : String) (all xs : List SuiteSummary)
    → All (λ s. owns id (apply_each_all (steals suite ids all) s) ≡ owns_robbed suite ids id s) xs
    → All
        (λ s.
          owns id (apply_each_all (save_test_cases suite ids all) s) ≡ owns_saved suite ids id s)
        xs
saved-All suite ids id all [] h = tt
saved-All suite ids id all (s ∷ xs) (e, h) =
    (saved_each suite ids id all s e, saved-All suite ids id all xs h)

pub map-map-owns :
    (id : String) (f : SuiteSummary → SuiteSummary) (xs : List SuiteSummary)
    → map (owns id) (map f xs) ≡ map (λ s. owns id (f s)) xs
map-map-owns id f [] = refl
map-map-owns id f (x ∷ xs) = ap (owns id (f x) ∷◌) (map-map-owns id f xs)

-- After a save, with distinct suite identifiers, the saved suite owns exactly the saved test cases,
-- and each other suite owns what it owned before less the saved ones: for each test case, at once
-- for all suites.
pub owns-save_test_cases :
    (suite : String) (ids : List String) (id : String) (all : List SuiteSummary)
    → Strings.Distinct (suite_ids all)
    → map (owns id) (apply_all (save_test_cases suite ids all) all)
      ≡ map (owns_saved suite ids id) all
owns-save_test_cases suite ids id all d =
    ap (map (owns id)) (apply_all-map (save_test_cases suite ids all) all)
    ∙ map-map-owns id (apply_each_all (save_test_cases suite ids all)) all
    ∙ same_map (λ s. owns id (apply_each_all (save_test_cases suite ids all) s))
        (owns_saved suite ids id) all (saved-All suite ids id all all (robbed suite ids id all d))

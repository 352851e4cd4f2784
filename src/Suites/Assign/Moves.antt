-- ===== src/Suites/Assign/Moves.antt =====
-- How the two updates of `handleMoveTc` change what each suite owns.
use project_hawkeye.Base.{
  String, Bool, true, false, not, ◌&&◌, ◌||◌, List, [], ◌∷◌, ◌++◌, filter, find, All, if◌then◌else◌,
  str_eq, eq_iff, ◌≡◌, refl, sym, ap, ◌∙◌, arith, Bool-cases, inl, inr, Option, none, some,
}
use project_hawkeye.Base.Strings.{contains, contains-append}
use project_hawkeye.Base.Strings
use project_hawkeye.Suites.{SuiteSummary, owns, with_ids}
use project_hawkeye.Suites.Assign.{Update, apply_each, unique, leave, join}
use project_hawkeye.Suites.Assign.Updates.{
  suite_ids, apply_own, apply_other, apply_each_all, contains-filter, same_test,
}

contains-unique :
    (id : String) (seen xs : List String)
    → contains id (unique seen xs) ≡ contains id xs && not (contains id seen)
unfolding unique contains
contains-unique id seen [] = refl
contains-unique id seen (x ∷ xs) = elim (Bool-cases (str_eq x id)) [
  | inl same ↦ ground (
    arith,
    contains-unique id seen xs,
    contains-unique id (seen ++ x ∷ []) xs,
    contains-append id seen (x ∷ []),
    same_test (λ y. contains y seen) x id same,
  )
  | inr other ↦ ground (
    arith,
    contains-unique id seen xs,
    contains-unique id (seen ++ x ∷ []) xs,
    contains-append id seen (x ∷ []),
  )
]

-- What a suite owns when a test case has moved.
abbrev pub owns_moved : String → String → String → String → SuiteSummary → Bool
owns_moved tc from to id s =
    if str_eq s.id from
    then owns id s && not (str_eq id tc)
    else if str_eq s.id to
    then owns id s || str_eq tc id
    else owns id s

-- The found suite is the one suite of that identifier.
abbrev pub IsOf : String → SuiteSummary → SuiteSummary → Type 0
IsOf k a s = str_eq s.id k ≡ true → s.test_case_ids ≡ a.test_case_ids

IsOf-IsOf_absent :
    (k : String) (a : SuiteSummary) (all : List SuiteSummary)
    → contains k (suite_ids all) ≡ false
    → All (IsOf k a) all
unfolding contains
IsOf-IsOf_absent k a [] h = tt
IsOf-IsOf_absent k a (s ∷ rest) h = (λ same. ground arith, IsOf-IsOf_absent k a rest (ground arith))

find_here :
    (k : String) (s : SuiteSummary) (rest : List SuiteSummary)
    → str_eq s.id k ≡ true
    → find (λ s. str_eq s.id k) (s ∷ rest) ≡ some s
find_here k s rest h = rw h refl

find_there :
    (k : String) (s : SuiteSummary) (rest : List SuiteSummary)
    → str_eq s.id k ≡ false
    → find (λ s. str_eq s.id k) (s ∷ rest) ≡ find (λ s. str_eq s.id k) rest
find_there k s rest h = rw h refl

abbrev ids_of : Option SuiteSummary → List String
ids_of none = []
ids_of (some s) = s.test_case_ids

pub found-IsOf :
    (k : String) (a : SuiteSummary) (all : List SuiteSummary)
    → Strings.Distinct (suite_ids all)
    → find (λ s. str_eq s.id k) all ≡ some a
    → All (IsOf k a) all
unfolding contains
found-IsOf k a [] d h = tt
found-IsOf k a (s ∷ rest) (new, d) h = elim (Bool-cases (str_eq s.id k)) [
  | inl same ↦
      let e : s.id ≡ k = ground (arith, eq_iff s.id k) in
      let found : some s ≡ some a = sym (find_here k s rest same) ∙ h in
      (λ _. ap ids_of found, IsOf-IsOf_absent k a rest (rw (sym e) new))
  | inr other ↦ (λ same. ground arith, found-IsOf k a rest d (sym (find_there k s rest other) ∙ h))
]

abbrev pub leaves : String → String → SuiteSummary → Update
leaves tc from a = record { suite = from; ids = filter (λ x. not (str_eq x tc)) a.test_case_ids }

abbrev pub joins : String → String → SuiteSummary → Update
joins tc to b = record { suite = to; ids = unique [] (b.test_case_ids ++ tc ∷ []) }

contains-leaves :
    (tc id : String) (a s : SuiteSummary)
    → s.test_case_ids ≡ a.test_case_ids
    → contains id (filter (λ x. not (str_eq x tc)) a.test_case_ids)
      ≡ owns id s && not (str_eq id tc)
contains-leaves tc id a s e =
    contains-filter (λ x. not (str_eq x tc)) id a.test_case_ids
    ∙ ap (λ xs. contains id xs && not (str_eq id tc)) (sym e)

contains-joins :
    (tc id : String) (b s : SuiteSummary)
    → s.test_case_ids ≡ b.test_case_ids
    → contains id (unique [] (b.test_case_ids ++ tc ∷ [])) ≡ owns id s || str_eq tc id
unfolding contains
contains-joins tc id b s e = ground (
  arith,
  contains-unique id [] (b.test_case_ids ++ tc ∷ []),
  contains-append id b.test_case_ids (tc ∷ []),
  ap (contains id) e,
)

moved_each :
    (tc from to id : String) (a b : SuiteSummary) (s : SuiteSummary)
    → str_eq from to ≡ false
    → IsOf from a s
    → IsOf to b s
    → owns id (apply_each_all (leaves tc from a ∷ joins tc to b ∷ []) s)
      ≡ owns_moved tc from to id s
moved_each tc from to id a b s apart h k = elim (Bool-cases (str_eq s.id from)) [
  | inl is_from ↦
      ap (λ t. owns id (apply_each (joins tc to b) t)) (apply_own (leaves tc from a) s is_from)
      ∙ ap (owns id) (
          apply_other (joins tc to b) (with_ids (leaves tc from a).ids s)
            (ground (arith, eq_iff s.id from, eq_iff s.id to, eq_iff from to)))
      ∙ contains-leaves tc id a s (h is_from)
      ∙ rw is_from refl
  | inr not_from ↦
      ap (λ t. owns id (apply_each (joins tc to b) t)) (apply_other (leaves tc from a) s not_from)
      ∙ elim (Bool-cases (str_eq s.id to)) [
        | inl is_to ↦
            ap (owns id) (apply_own (joins tc to b) s is_to)
            ∙ contains-joins tc id b s (k is_to)
            ∙ rw (not_from, is_to) refl
        | inr not_to ↦
            ap (owns id) (apply_other (joins tc to b) s not_to) ∙ rw (not_from, not_to) refl
      ]
]

pub moved-All :
    (tc from to id : String) (a b : SuiteSummary) (xs : List SuiteSummary)
    → str_eq from to ≡ false
    → All (IsOf from a) xs
    → All (IsOf to b) xs
    → All
        (λ s.
          owns id (apply_each_all (leaves tc from a ∷ joins tc to b ∷ []) s)
          ≡ owns_moved tc from to id s)
        xs
moved-All tc from to id a b [] apart h k = tt
moved-All tc from to id a b (s ∷ xs) apart (h, hs) (k, ks) =
    (moved_each tc from to id a b s apart h k, moved-All tc from to id a b xs apart hs ks)

pub leave-found :
    (tc from : String) (a : SuiteSummary) (all : List SuiteSummary)
    → str_eq from "" ≡ false
    → find (λ s. str_eq s.id from) all ≡ some a
    → leave tc (some from) all ≡ some (leaves tc from a ∷ [])
unfolding leave
leave-found tc from a all named h = rw (named, h) refl

pub join-found :
    (tc to : String) (b : SuiteSummary) (all : List SuiteSummary)
    → str_eq to "" ≡ false
    → find (λ s. str_eq s.id to) all ≡ some b
    → join tc (some to) all ≡ some (joins tc to b ∷ [])
unfolding join
join-found tc to b all named h = rw (named, h) refl

pub join-unlisted :
    (tc to : String) (all : List SuiteSummary)
    → str_eq to "" ≡ false
    → find (λ s. str_eq s.id to) all ≡ none
    → join tc (some to) all ≡ none
unfolding join
join-unlisted tc to all named h = rw (named, h) refl

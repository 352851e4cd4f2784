-- ===== src/NewRun/Launch.antt =====
-- What the page that starts a run launches when the user picked nothing.
use Prim.Native.Char.{code}
use text.Mathlib.TextEquality.{starts_with_iff}
use text.Mathlib.TextLemmas.{nil-append, cons-append}
use text.Mathlib.TextPositions.{starts_with-append}
use project_hawkeye.Base.{
  ℕ, String, true, false, List, [], ◌∷◌, Option, none, some, str_eq, ◌≡◌, refl, sym, ap, ◌∙◌, arith,
  eq_iff, Bool-cases, inl, inr,
}
use project_hawkeye.Base.Chars.{slice_from}
use project_hawkeye.Base.Chars.Laws.{behind-append, is_filled-cons_append}
use project_hawkeye.Base.Strings.{is_filled, ◌+++◌}
use project_hawkeye.NewRun.{
  DbCase, TestCaseInfo, Page, is_db_case, selected_db_id, selected_yaml_path, find_path,
  selected_case, select_of, auto_select, path_of, same_case, sync_browser, round, RunRequest,
  handle_launch,
}
use project_hawkeye.NewRun.Settled.{round-chosen, round_of_chosen, sync_browser_lem}

first : String → ℕ
first String.[] = 0
first (String.◌∷◌ c s) = code c

is_db_case-yaml : (path : String) → is_db_case ("yaml:" +++ path) ≡ false
unfolding first
is_db_case-yaml path = elim (Bool-cases (is_db_case ("yaml:" +++ path))) [
  | inr other ↦ other
  | inl db ↦
      let (u, same) = (starts_with_iff ("yaml:" +++ path) "db:").0 db in
      let clash : ◌≡◌ {A = ℕ} 100 121 =
        ap first (sym (cons-append "d" "b:" u) ∙ same ∙ cons-append "y" "aml:" path) in
      absurd (omega arith)
]

selected_yaml_path-yaml : (path : String) → selected_yaml_path ("yaml:" +++ path) ≡ path
selected_yaml_path-yaml path =
    rw (is_db_case-yaml path, is_filled-cons_append "y" "aml:" path, behind-append "yaml:" path)
      refl

selected_db_id-db : (id : String) → selected_db_id ("db:" +++ id) ≡ some id
unfolding slice_from
selected_db_id-db id = rw (starts_with-append "db:" id) (
    ap some (
      ap (slice_from 3) (
        cons-append "d" "b:" id
        ∙ ap (String.◌∷◌ "d") (
            cons-append "b" ":" id
            ∙ ap (String.◌∷◌ "b") (cons-append ":" "" id ∙ ap (String.◌∷◌ ":") (nil-append id))))))

-- What a request runs, and in which browser
abbrev pub runs : Option RunRequest → List (Option String × Option String × String)
runs none = []
runs (some r) = (r.test_case_id, r.test_case_path, r.browser) ∷ []

handle_launch-db :
    (q : Page) (id : String)
    → q.selected_value ≡ "db:" +++ id
    → is_filled id ≡ true
    → runs (handle_launch q) ≡ (some id, none, q.browser) ∷ []
unfolding handle_launch
handle_launch-db q id value filled =
    rw (value, is_filled-cons_append "d" "b:" id, selected_db_id-db id, filled) refl

handle_launch-yaml :
    (q : Page) (path : String)
    → q.selected_value ≡ "yaml:" +++ path
    → runs (handle_launch q) ≡ (none, some path, q.browser) ∷ []
unfolding handle_launch
handle_launch-yaml q path value =
    rw
      (
        value,
        is_filled-cons_append "y" "aml:" path,
        is_db_case-yaml path,
        behind-append "yaml:" path,
      )
      refl

selected_value-sync_browser :
    (case : Option TestCaseInfo) (p : Page)
    → (sync_browser case p).selected_value ≡ p.selected_value
unfolding sync_browser
selected_value-sync_browser case p = elim (Bool-cases (same_case p.seen_case (path_of case))) [
  | inl same ↦ rw same refl
  | inr other ↦ rw other refl
]

auto_select_idle :
    (p : Page) → p.selected_value ≡ "" → auto_select p ≡ select_of p.db_cases p.test_cases p
unfolding auto_select
auto_select_idle p idle = rw idle refl

-- With nothing picked and cases in the database, the page comes to launch the first of these.
pub launch_first_db :
    (p : Page) (c : DbCase) (rest : List DbCase)
    → p.selected_value ≡ ""
    → p.db_cases ≡ c ∷ rest
    → is_filled c.id ≡ true
    → runs (handle_launch (round p)) ≡ (some c.id, none, (round p).browser) ∷ []
unfolding round select_of
launch_first_db p c rest idle cases filled =
    handle_launch-db (round p) c.id
      (selected_value-sync_browser (selected_case p) (auto_select p)
        ∙ ap (λ (q : Page). q.selected_value) (auto_select_idle p idle)
        ∙ ap (λ cs. (select_of cs p.test_cases p).selected_value) cases)
      filled

same_case-eq : (a b : Option String) → same_case a b ≡ true → a ≡ b
unfolding same_case
same_case-eq none none h = refl
same_case-eq none (some b) h = cc
same_case-eq (some a) none h = cc
same_case-eq (some a) (some b) h = ap some ((eq_iff a b).0 h)

-- What is found by the empty path is not at a path that is filled.
not_found_empty :
    (path : String) (tcs : List TestCaseInfo)
    → is_filled path ≡ true
    → same_case (path_of (find_path "" tcs)) (some path) ≡ false
unfolding same_case find_path
not_found_empty path [] filled = refl
not_found_empty path (tc ∷ rest) filled = elim (Bool-cases (str_eq tc.path "")) [
  | inl empty ↦ rw empty (ground (arith, eq_iff tc.path path, eq_iff tc.path "", eq_iff path ""))
  | inr other ↦ rw other (not_found_empty path rest filled)
]

browser_of_new :
    (q : Page) (tc : TestCaseInfo)
    → same_case q.seen_case (some tc.path) ≡ false
    → (sync_browser (some tc) q).browser ≡ tc.browser
unfolding sync_browser
browser_of_new q tc fresh = rw fresh refl

-- The page when its first file is selected
module _ (p : Page) (tc : TestCaseInfo) (rest : List TestCaseInfo) (idle : p.selected_value ≡ "")
    (no_db : p.db_cases ≡ []) (files : p.test_cases ≡ some (tc ∷ rest))
    (filled : is_filled tc.path ≡ true) where
  selects : auto_select p ≡ record p { selected_value = "yaml:" +++ tc.path; browser = tc.browser }
  unfolding select_of
  selects =
      auto_select_idle p idle
      ∙ ap (λ cs. select_of cs p.test_cases p) no_db
      ∙ ap (λ tcs. select_of [] tcs p) files

  value_of_round : (round p).selected_value ≡ "yaml:" +++ tc.path
  unfolding round
  value_of_round =
      selected_value-sync_browser (selected_case p) (auto_select p)
      ∙ ap (λ (q : Page). q.selected_value) selects

  case_of_round : selected_case (round p) ≡ some tc
  unfolding round selected_case find_path
  case_of_round =
      (sync_browser_lem (selected_case p) (auto_select p)).1
      ∙ ap selected_case selects
      ∙ ap
          (λ tcs. selected_case (record p {
            selected_value = "yaml:" +++ tc.path;
            browser = tc.browser;
            test_cases = tcs;
          }))
          files
      ∙ ap (λ k. find_path k (tc ∷ rest)) (selected_yaml_path-yaml tc.path)
      ∙ ground (arith, eq_iff tc.path tc.path)

  seen_of_round : same_case (round p).seen_case (some tc.path) ≡ false
  unfolding round selected_case
  seen_of_round =
      ap (λ c. same_case c (some tc.path))
        (same_case-eq _ _ (sync_browser_lem (selected_case p) (auto_select p)).2)
      ∙ ap
          (λ v.
            same_case (path_of (selected_case (record p { selected_value = v }))) (some tc.path))
          idle
      ∙ ap
          (λ tcs.
            same_case (path_of (selected_case (record p { selected_value = ""; test_cases = tcs })))
              (some tc.path))
          files
      ∙ not_found_empty tc.path (tc ∷ rest) filled

  -- With nothing picked and no case in the database, the page comes to launch the first of the files,
  -- in the browser of this file.
  pub launch_first_file :
      runs (handle_launch (round (round p))) ≡ (none, some tc.path, tc.browser) ∷ []
  launch_first_file =
      let second =
        round_of_chosen (round p) (round-chosen p)
        ∙ ap (λ c. sync_browser c (round p)) case_of_round in
      handle_launch-yaml (round (round p)) tc.path (
        ap (λ (q : Page). q.selected_value) second
        ∙ selected_value-sync_browser (some tc) (round p)
        ∙ value_of_round)
      ∙ ap (λ b. (none, some tc.path, b) ∷ [])
          (ap (λ (q : Page). q.browser) second ∙ browser_of_new (round p) tc seen_of_round)

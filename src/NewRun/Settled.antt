-- ===== src/NewRun/Settled.antt =====
-- The effects of the page that starts a run come to rest, and what it launches then.
use project_hawkeye.Base.{
  String, Bool, true, false, ◌||◌, List, [], ◌∷◌, Option, none, some, ◌≡◌, refl, sym, ap, ◌∙◌,
  arith, eq_iff, Bool-cases, inl, inr,
}
use project_hawkeye.Base.Chars.Laws.{is_filled-cons_append}
use project_hawkeye.Base.Strings.{is_filled}
use project_hawkeye.NewRun.{
  DbCase, TestCaseInfo, Page, selected_case, select_of, auto_select, path_of, same_case,
  sync_browser, round,
}

-- No test case is known.
abbrev pub knows_none : List DbCase → Option (List TestCaseInfo) → Bool
knows_none (c ∷ rest) tcs = false
knows_none [] none = true
knows_none [] (some []) = true
knows_none [] (some (tc ∷ rest)) = false

abbrev is_chosen : Page → Bool
is_chosen p = is_filled p.selected_value || knows_none p.db_cases p.test_cases

select_of_none :
    (cs : List DbCase) (tcs : Option (List TestCaseInfo)) (p : Page)
    → knows_none cs tcs ≡ true
    → select_of cs tcs p ≡ p
unfolding select_of
select_of_none (c ∷ rest) tcs p h = cc
select_of_none [] none p h = refl
select_of_none [] (some []) p h = refl
select_of_none [] (some (tc ∷ rest)) p h = cc

auto_select_of_chosen : (p : Page) → is_chosen p ≡ true → auto_select p ≡ p
unfolding auto_select
auto_select_of_chosen p h = elim (Bool-cases (is_filled p.selected_value)) [
  | inl filled ↦ rw filled refl
  | inr empty ↦ rw empty (select_of_none p.db_cases p.test_cases p (ground arith))
]

select_of-chosen :
    (cs : List DbCase) (tcs : Option (List TestCaseInfo)) (p : Page)
    → (is_filled (select_of cs tcs p).selected_value || knows_none cs tcs ≡ true)
      × ((select_of cs tcs p).db_cases ≡ p.db_cases)
      × ((select_of cs tcs p).test_cases ≡ p.test_cases)
unfolding select_of
select_of-chosen (c ∷ rest) tcs p = (rw (is_filled-cons_append "d" "b:" c.id) refl, refl, refl)
select_of-chosen [] none p = (ground arith, refl, refl)
select_of-chosen [] (some []) p = (ground arith, refl, refl)
select_of-chosen [] (some (tc ∷ rest)) p =
    (rw (is_filled-cons_append "y" "aml:" tc.path) refl, refl, refl)

auto_select-chosen : (p : Page) → is_chosen (auto_select p) ≡ true
unfolding auto_select
auto_select-chosen p = elim (Bool-cases (is_filled p.selected_value)) [
  | inl filled ↦ rw filled (rw filled refl)
  | inr empty ↦
      let (chosen, db, tcs) = select_of-chosen p.db_cases p.test_cases p in
      rw empty (rw (db, tcs) chosen)
]

same_case_refl : (c : Option String) → same_case c c ≡ true
unfolding same_case
same_case_refl none = refl
same_case_refl (some a) = ground (arith, eq_iff a a)

pub sync_browser_lem :
    (case : Option TestCaseInfo) (p : Page)
    → (is_chosen (sync_browser case p) ≡ is_chosen p)
      × (selected_case (sync_browser case p) ≡ selected_case p)
      × (same_case (sync_browser case p).seen_case (path_of case) ≡ true)
unfolding sync_browser selected_case
sync_browser_lem case p = elim (Bool-cases (same_case p.seen_case (path_of case))) [
  | inl same ↦ rw same (refl, refl, same)
  | inr other ↦ rw other (refl, refl, same_case_refl (path_of case))
]

sync_browser_of_seen :
    (case : Option TestCaseInfo) (p : Page)
    → same_case p.seen_case (path_of case) ≡ true
    → sync_browser case p ≡ p
unfolding sync_browser
sync_browser_of_seen case p seen = rw seen refl

pub round-chosen : (p : Page) → is_chosen (round p) ≡ true
unfolding round
round-chosen p = (sync_browser_lem (selected_case p) (auto_select p)).0 ∙ auto_select-chosen p

pub round_of_chosen : (p : Page) → is_chosen p ≡ true → round p ≡ sync_browser (selected_case p) p
unfolding round
round_of_chosen p h = ap (sync_browser (selected_case p)) (auto_select_of_chosen p h)

-- Whatever the lists and the choice are, the effects have come to rest after two renders: another
-- one changes nothing.
pub round_settles : (p : Page) → round (round (round p)) ≡ round (round p)
round_settles p =
    let q = round p in
    let case = selected_case q in
    let chosen = round-chosen p in
    let (kept, found, seen) = sync_browser_lem case q in
    ap round (round_of_chosen q chosen)
    ∙ round_of_chosen (sync_browser case q) (kept ∙ chosen)
    ∙ ap (λ c. sync_browser c (sync_browser case q)) found
    ∙ sync_browser_of_seen case (sync_browser case q) seen
    ∙ sym (round_of_chosen q chosen)

-- ===== src/Suites/Cases/Waiting.antt =====
-- When the page of all test cases waits.
use project_hawkeye.Base.{
  ℕ, ◌+◌, String, true, List, [], ◌∷◌, Option, none, some, ◌≡◌, refl, arith, Bool-cases, inl, inr,
}
use project_hawkeye.Base.Strings.{truthy}
use project_hawkeye.Suites.Catalog.{answered, threw}
use project_hawkeye.Suites.Cases.{
  Page, Call, list_all, clone, archive, load, handle_clone, cloned, confirm_archive_of, archived,
  Event, opened, list_given, clone_clicked, clone_given, archive_clicked, archive_cancelled,
  archive_confirmed, archive_given, typed, step,
}

abbrev pub lists : List Call → ℕ
lists [] = 0
lists (list_all ∷ rest) = 1 + lists rest
lists (clone tc ∷ rest) = lists rest
lists (archive tc ∷ rest) = lists rest

lists-confirm_archive_of : (id : Option String) (p : Page) → lists (confirm_archive_of id p).1 ≡ 0
unfolding confirm_archive_of
lists-confirm_archive_of none p = refl
lists-confirm_archive_of (some id) p = elim (Bool-cases (truthy (some id))) [
  | inl filled ↦ rw filled refl
  | inr empty ↦ rw empty refl
]

-- Whenever the page asks for the list, it shows that it loads, and no error of an earlier request.
pub loading_of_lists :
    (e : Event) (p : Page)
    → lists (step e p).1 ≡ 1
    → ((step e p).0.loading ≡ true) × ((step e p).0.error ≡ none)
unfolding step load handle_clone cloned archived
loading_of_lists opened p asks = (refl, refl)
loading_of_lists (list_given reply) p asks = absurd (omega arith)
loading_of_lists (clone_clicked tc) p asks = absurd (omega arith)
loading_of_lists (clone_given (answered done)) p asks = (refl, refl)
loading_of_lists (clone_given (threw text)) p asks = absurd (omega arith)
loading_of_lists (archive_clicked tc) p asks = absurd (omega arith)
loading_of_lists archive_cancelled p asks = absurd (omega arith)
loading_of_lists archive_confirmed p asks =
    absurd (omega (arith, lists-confirm_archive_of p.archive_id p))
loading_of_lists (archive_given (answered done)) p asks = (refl, refl)
loading_of_lists (archive_given (threw text)) p asks = absurd (omega arith)
loading_of_lists (typed v) p asks = absurd (omega arith)

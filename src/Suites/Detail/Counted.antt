-- ===== src/Suites/Detail/Counted.antt =====
-- The number of test cases on the page of a suite.
use project_hawkeye.Base.{String, List, [], ◌∷◌, length, Option, none, some, ◌≡◌, refl, sym, subst}
use project_hawkeye.Suites.{SuiteSummary}
use project_hawkeye.Suites.Detail.{
  Page, came, threw, load, load_schedule, load_runs, add_member, member_added, member_removed,
  save_schedule, schedule_saved, Event, loaded, schedule_loaded, runs_loaded, adding, added,
  removed, saving, saved, cron_typed, enabled_set, step, run,
}

abbrev pub IsCountedSuite : Option SuiteSummary → Type 0
IsCountedSuite none = Unit
IsCountedSuite (some suite) = suite.test_count ≡ length suite.test_case_ids

-- A suite that the server gives has the number of its test cases.
abbrev pub IsCountedIn : Event → Type 0
IsCountedIn (loaded (came (suite, cases))) = suite.test_count ≡ length suite.test_case_ids
IsCountedIn (loaded (threw message)) = Unit
IsCountedIn (schedule_loaded answer) = Unit
IsCountedIn (runs_loaded answer) = Unit
IsCountedIn (adding tc) = Unit
IsCountedIn (added suite answer) = Unit
IsCountedIn (removed suite answer) = Unit
IsCountedIn saving = Unit
IsCountedIn (saved answer) = Unit
IsCountedIn (cron_typed v) = Unit
IsCountedIn (enabled_set v) = Unit

abbrev pub AreCounted : List Event → Type 0
AreCounted [] = Unit
AreCounted (e ∷ rest) = IsCountedIn e × AreCounted rest

suite-add_member_at :
    (s : Option SuiteSummary) (tc : String) (p : Page) → p.suite ≡ s → (add_member tc p).0.suite ≡ s
unfolding add_member
suite-add_member_at none tc p h = rw (h, add_member) h
suite-add_member_at (some suite) tc p h = rw (h, add_member) h

adding_lem : (tc : String) (p : Page) → (add_member tc p).0.suite ≡ p.suite
adding_lem tc p = suite-add_member_at p.suite tc p refl

module _ (project : String) where
  step-IsCountedSuite :
      (e : Event) (p : Page)
      → IsCountedIn e
      → IsCountedSuite p.suite
      → IsCountedSuite (step project e p).suite
  unfolding step load load_schedule load_runs member_added member_removed save_schedule
      schedule_saved
  step-IsCountedSuite (loaded (came (suite, cases))) p given counted = given
  step-IsCountedSuite (loaded (threw message)) p given counted = counted
  step-IsCountedSuite (schedule_loaded (came s)) p given counted = counted
  step-IsCountedSuite (schedule_loaded (threw message)) p given counted = counted
  step-IsCountedSuite (runs_loaded (came runs)) p given counted = counted
  step-IsCountedSuite (runs_loaded (threw message)) p given counted = counted
  step-IsCountedSuite (adding tc) p given counted =
      subst IsCountedSuite (sym (adding_lem tc p)) counted
  step-IsCountedSuite (added suite (came ids)) p given counted = refl
  step-IsCountedSuite (added suite (threw message)) p given counted = counted
  step-IsCountedSuite (removed suite (came ids)) p given counted = refl
  step-IsCountedSuite (removed suite (threw message)) p given counted = counted
  step-IsCountedSuite saving p given counted = counted
  step-IsCountedSuite (saved (came s)) p given counted = counted
  step-IsCountedSuite (saved (threw message)) p given counted = counted
  step-IsCountedSuite (cron_typed v) p given counted = counted
  step-IsCountedSuite (enabled_set v) p given counted = counted

  -- Whatever is loaded, added, removed and saved, in any order of the answers, the number that the
  -- page shows for its suite is that of the identifiers of the suite, also those of test cases that
  -- are not listed.
  pub run-IsCountedSuite :
      (events : List Event) (p : Page)
      → AreCounted events
      → IsCountedSuite p.suite
      → IsCountedSuite (run project events p).suite
  unfolding run
  run-IsCountedSuite [] p given counted = counted
  run-IsCountedSuite (e ∷ rest) p (one, given) counted =
      run-IsCountedSuite rest (step project e p) given (step-IsCountedSuite e p one counted)

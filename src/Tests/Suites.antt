-- ===== src/Tests/Suites.antt =====
-- The suites page on three suites: "c1" and "c2" in the first, "c3" in the second.
use project_hawkeye.Base.{
  ◌≤◌, String, true, false, List, [], ◌∷◌, map, filter, any, not, ◌&&◌, ◌≡◌, refl, count_by, some,
  arith,
}
use project_hawkeye.Base.Strings.{contains}
use project_hawkeye.Suites.{SuiteSummary, Schedule, owns}
use project_hawkeye.Suites.Assign.{save_test_cases, apply_all, move_test_case, toggles, unassigned}
use project_hawkeye.Suites.Assign.Updates.{owns_saved, owns-save_test_cases}
use project_hawkeye.Suites.Assign.Ownership.{owners-save_test_cases, move_test_case_lem}
use project_hawkeye.Suites.Assign.Moves.{owns_moved}
use project_hawkeye.Suites.Assign.Unassigned.{case_ids, unassigned_lem}
use project_hawkeye.Suites.Assign.Selection.{save-toggles}
use project_hawkeye.Suites.Schedules.{
  RunMode, instant, Form, is_git_push, do_save, handle_confirm, serve, git_push_cron,
}
use project_hawkeye.Suites.Schedules.Kept.{do_save_of_instant}
use project_hawkeye.Tests.Data.{suite_of, test_case_of, schedule_of}

abbrev three : List SuiteSummary
three = suite_of "s1" ("c1" ∷ "c2" ∷ []) ∷ suite_of "s2" ("c3" ∷ []) ∷ suite_of "s3" [] ∷ []

abbrev taken : List String
taken = "c1" ∷ "c3" ∷ []

owns-save_test_cases_example :
    map (owns "c1") (apply_all (save_test_cases "s3" taken three) three)
    ≡ map (owns_saved "s3" taken "c1") three
unfolding contains
owns-save_test_cases_example = owns-save_test_cases "s3" taken "c1" three (refl, (refl, (refl, tt)))

saved_test :
    map (owns "c1") (apply_all (save_test_cases "s3" taken three) three) ≡ false ∷ false ∷ true ∷ []
unfolding apply_all save_test_cases contains
saved_test = refl

owners-save_test_cases_example :
    count_by (owns "c1") (apply_all (save_test_cases "s3" taken three) three) ≤ 1
unfolding contains
owners-save_test_cases_example =
    owners-save_test_cases "s3" taken "c1" three (refl, (refl, (refl, tt))) (omega arith)

move_test_case_lem_example :
    ((move_test_case "c1" (some "s1") (some "s2") three).threw ≡ false)
    × (map (owns "c1") (apply_all (move_test_case "c1" (some "s1") (some "s2") three).sent three)
        ≡ map (owns_moved "c1" "s1" "s2" "c1") three)
unfolding contains
move_test_case_lem_example =
    move_test_case_lem "c1" "s1" "s2" "c1" (suite_of "s1" ("c1" ∷ "c2" ∷ []))
      (suite_of "s2" ("c3" ∷ [])) three (refl, (refl, (refl, tt))) refl refl refl refl refl

unassigned_lem_test :
    contains "c4" (case_ids (unassigned (test_case_of "c1" ∷ test_case_of "c4" ∷ []) three))
    ≡ contains "c4" (case_ids (test_case_of "c1" ∷ test_case_of "c4" ∷ []))
      && not (any (owns "c4") three)
unassigned_lem_test = unassigned_lem "c4" (test_case_of "c1" ∷ test_case_of "c4" ∷ []) three

save-toggles_test :
    save_test_cases "s1" (toggles "s1" three ("c3" ∷ "c4" ∷ []) ("c1" ∷ "c2" ∷ [])) three
    ≡ record { suite = "s1"; ids = toggles "s1" three ("c3" ∷ "c4" ∷ []) ("c1" ∷ "c2" ∷ []) } ∷ []
unfolding contains
save-toggles_test = save-toggles "s1" three ("c3" ∷ "c4" ∷ []) ("c1" ∷ "c2" ∷ []) (refl, (refl, tt))

abbrev both_kinds : List Schedule
both_kinds = schedule_of "1" "0 9 * * 1" "main" ∷ schedule_of "2" git_push_cron "main" ∷ []

abbrev new_schedule : String → String → Schedule
new_schedule cron branch = schedule_of "3" cron branch

abbrev form_of : RunMode → Form
form_of mode = record { mode = mode; model = "m"; cron = "0 0 * * *"; branch = "dev" }

do_save_of_instant_example :
    (handle_confirm (form_of instant) both_kinds ≡ some (do_save (form_of instant) both_kinds))
    × (serve new_schedule (do_save (form_of instant) both_kinds) both_kinds
        ≡ filter (λ s. not (is_git_push s)) both_kinds)
unfolding contains
do_save_of_instant_example =
    do_save_of_instant new_schedule "m" "0 0 * * *" "dev" both_kinds (refl, (refl, tt))

-- ===== src/Suites/Schedules.antt =====
-- The schedules of a suite: `RunSuiteModal` and `ScheduleModal` of suites/page.tsx. The schedules of a
-- git push carry a cron text that never fires.
pub mod Kept
use project_hawkeye.Base.{
  ℕ, String, Bool, true, false, not, ◌&&◌, List, [], ◌∷◌, ◌++◌, map, filter, find, length, Option,
  none, some, if◌then◌else◌, ◌==◌, str_eq, ltb,
}
use project_hawkeye.Suites.{Schedule}

-- `RunMode`
pub data RunMode : Type 0 where
  instant : RunMode
  schedule : RunMode
  git_push : RunMode

abbrev pub git_push_cron : String
git_push_cron = "0 0 31 2 *"

abbrev pub is_git_push : Schedule → Bool
is_git_push s = str_eq s.cron git_push_cron

-- The test under `filter` of `existingForMode` and of `ExistingScheduleBadge`.
abbrev pub is_for : RunMode → Schedule → Bool
is_for instant s = is_git_push s
is_for schedule s = not (is_git_push s)
is_for git_push s = is_git_push s

unfoldable pub existing_for_mode : RunMode → List Schedule → List Schedule
existing_for_mode mode schedules = filter (is_for mode) schedules

-- The form of the modal.
pub record Form : Type 0 where
  pub mode : RunMode
  pub model : String
  pub cron : String
  pub branch : String

-- What the modal asks of the server.
pub data Call : Type 0 where
  delete_schedule : (id : String) → Call
  run_suite : (model : String) → Call
  create_schedule : (cron branch : String) → Call

-- `onRunNow`, `onSaveSchedule` and `onSaveGitPush`, as the page answers them.
abbrev pub saved_call : Form → Call
saved_call f = elim f.mode [
  | instant ↦ run_suite f.model
  | schedule ↦ create_schedule f.cron f.branch
  | git_push ↦ create_schedule git_push_cron f.branch
]

-- The calls of `doSave`: the deletions, which are awaited together, then the mode's own call.
unfoldable pub do_save : Form → List Schedule → List Call
unfolding existing_for_mode
do_save f schedules =
    map (λ (s : Schedule). delete_schedule s.id) (existing_for_mode f.mode schedules)
    ++ saved_call f ∷ []

abbrev pub is_instant : RunMode → Bool
is_instant instant = true
is_instant schedule = false
is_instant git_push = false

-- `handleConfirm`: nothing is sent when the modal asks for a confirmation first.
unfoldable pub handle_confirm : Form → List Schedule → Option (List Call)
unfolding do_save existing_for_mode
handle_confirm f schedules =
    if not (is_instant f.mode) && ltb 0 (length (existing_for_mode f.mode schedules))
    then none
    else some (do_save f schedules)

-- The effect that fills the form in when the mode or the schedules change.
unfoldable pub prefill : Form → List Schedule → Form
prefill f schedules = elim f.mode [
  | instant ↦ f
  | schedule ↦ elim (find (λ s. not (is_git_push s)) schedules) [
    | none ↦ f
    | some s ↦ record f { cron = s.cron; branch = s.branch }
  ]
  | git_push ↦ elim (find is_git_push schedules) [
    | none ↦ f
    | some s ↦ record f { branch = s.branch }
  ]
]

-- `addSchedule`, on its answer, and `removeSchedule`
unfoldable pub add_schedule : Schedule → List Schedule → List Schedule
add_schedule s schedules = schedules ++ s ∷ []

unfoldable pub remove_schedule : String → List Schedule → List Schedule
remove_schedule id schedules = filter (λ s. not (str_eq s.id id)) schedules

-- The server's side: each call changes the suite's schedules as Backend/api/routes does, a schedule
-- that is created being given by a function of its cron and branch.
abbrev pub serve_one : (String → String → Schedule) → Call → List Schedule → List Schedule
serve_one new (delete_schedule id) schedules = filter (λ s. not (str_eq s.id id)) schedules
serve_one new (run_suite model) schedules = schedules
serve_one new (create_schedule cron branch) schedules = schedules ++ new cron branch ∷ []

abbrev pub serve : (String → String → Schedule) → List Call → List Schedule → List Schedule
serve new [] schedules = schedules
serve new (c ∷ cs) schedules = serve new cs (serve_one new c schedules)

-- ===== src/Hub.antt =====
-- The page that selects a project, Frontend/hawkeye-web/src/app/app/(global-hub)/page.tsx, and the
-- dialog that starts a run, src/components/app/new-run-modal.tsx.
pub mod RunDialog
use project_hawkeye.Base.{
  ℕ, ◌+◌, ◌*◌, ◌/◌, String, not, ◌||◌, List, [], ◌∷◌, Option, none, some, filter, or_else,
  if◌then◌else◌, ltb,
}
use project_hawkeye.Base.Strings.{slice, is_filled, includes, ◌+++◌}
use project_hawkeye.Projects.{
  ProjectSummary, ProjectState, staging, set_current_project, set_project_for_user,
}
use text.Mathlib.Text.{starts_with}

-- `ProjectSummary` of the client
pub record ApiProject : Type 0 where
  pub id : String
  pub name : String
  pub slug : Option String
  pub description : Option String
  pub created_at : String

-- A pass rate is in thousandths.
pub record ProjectStats : Type 0 where
  pub total_runs : ℕ
  pub active_runs : ℕ
  pub pass_rate : ℕ
  pub cost_this_month_usd : ℕ

pub record ProjectCard : Type 0 where
  pub id : String
  pub name : String
  pub key : String
  pub description : String
  pub created_at : String
  pub stats : Option ProjectStats

unfoldable pub to_project_card : (String → String) → ApiProject → ProjectCard
to_project_card upper p = record {
  id = p.id;
  name = p.name;
  key = upper (slice 2 (or_else p.slug p.name));
  description = or_else p.description "";
  created_at = p.created_at;
  stats = none;
}

-- The second `setProjects`: the answers come in the order of the cards.
unfoldable pub with_stats : List ProjectCard → List (Option ProjectStats) → List ProjectCard
with_stats [] answers = []
with_stats (c ∷ cs) [] = c ∷ cs
with_stats (c ∷ cs) (a ∷ answers) = record c { stats = a } ∷ with_stats cs answers

unfoldable pub found_cards :
    (trim lower : String → String) → String → List ProjectCard → List ProjectCard
found_cards trim lower query projects =
    let q = lower (trim query) in
    (if is_filled q
      then filter (λ p. includes (lower p.name) q || includes (lower p.description) q) projects
      else projects)

abbrev pub opened_as : String → String → ProjectSummary
opened_as id name = record { id = id; name = name; environment = staging; last_run_ok = none }

-- `if (session?.user?.email) setProjectForUser(...)`
abbrev pub open_for : Option String → ProjectSummary → ProjectState → ProjectState
open_for none p s = s
open_for (some email) p s = if is_filled email then set_project_for_user email (some p) s else s

-- `enterProject`: the store afterwards, and the destination.
unfoldable pub enter_project :
    (resume : String) → Option String → ProjectCard → ProjectState → ProjectState × String
enter_project resume email p s =
    let proj = opened_as p.id p.name in
    (
      open_for email proj (set_current_project (some proj) s),
      if starts_with resume ("/app/" +++ p.id +++ "/")
          then resume
          else "/app/" +++ p.id +++ "/dashboard",
    )

-- `onCreateProject`, on the answer of the server
unfoldable pub on_create_project :
    (trim upper : String → String)
    → (new_name : String) → Option String
    → Option ApiProject
    → List ProjectCard
    → ProjectState
    → List ProjectCard × ProjectState
on_create_project trim upper new_name email answer cards s =
    if not (is_filled (trim new_name)) then (cards, s) else elim answer [
      | none ↦ (cards, s)
      | some p ↦ (
        to_project_card upper p ∷ cards,
        open_for email (opened_as p.id p.name)
            (set_current_project (some (opened_as p.id p.name)) s),
      )
    ]

unfoldable pub total_runs : List ProjectCard → ℕ
total_runs [] = 0
total_runs (p ∷ ps) = elim p.stats [ none ↦ total_runs ps | some s ↦ s.total_runs + total_runs ps ]

unfoldable pub weighted_passed : List ProjectCard → ℕ
weighted_passed [] = 0
weighted_passed (p ∷ ps) = elim p.stats [
  | none ↦ weighted_passed ps
  | some s ↦ s.pass_rate * s.total_runs + weighted_passed ps
]

-- The percentage, rounded to the nearest.
unfoldable pub hub_pass_rate : List ProjectCard → Option ℕ
unfolding total_runs weighted_passed
hub_pass_rate ps =
    if ltb 0 (total_runs ps)
    then some ((weighted_passed ps + 5 * total_runs ps) / (10 * total_runs ps))
    else none

-- `handleSubmit` of the dialog: the request for the run, when a test case is chosen.
pub record RunRequest : Type 0 where
  pub test_case_id : String
  pub model : String
  pub triggered_by : Option String

unfoldable pub submit_run : String → String → Option String → Option RunRequest
submit_run test_case model email =
    if is_filled test_case
    then some (record { test_case_id = test_case; model = model; triggered_by = email })
    else none

-- Where the dialog goes on the answer.
unfoldable pub run_started : (project : String) → Option String → Option String
run_started project none = none
run_started project (some run_id) = some ("/app/" +++ project +++ "/runs/live?id=" +++ run_id)

-- ===== src/Projects.antt =====
-- Frontend/hawkeye-web/src/lib/project/store.ts and lib/theme/store.ts: the project that each user
-- had open last, and the theme.
use project_hawkeye.Base.{
  String, Bool, List, [], ◌∷◌, Option, none, some, ◌≡◌, refl, ap, ◌∙◌, if◌then◌else◌, str_eq,
}
use project_hawkeye.Base.Dict
use project_hawkeye.Base.Dict.{Dict}

pub data EnvironmentName : Type 0 where
  production staging local : EnvironmentName

pub record ProjectSummary : Type 0 where
  pub id : String
  pub name : String
  pub environment : EnvironmentName
  pub last_run_ok : Option Bool

pub record ProjectState : Type 0 where
  pub projects_by_user : Dict ProjectSummary
  pub current_project : Option ProjectSummary

abbrev pub initial : ProjectState
initial = record { projects_by_user = []; current_project = none }

-- A null project takes the user's entry out.
unfoldable pub set_project_for_user : String → Option ProjectSummary → ProjectState → ProjectState
set_project_for_user email none s = record {
  projects_by_user = Dict.delete email s.projects_by_user;
  current_project = none;
}
set_project_for_user email (some p) s = record {
  projects_by_user = Dict.set email p s.projects_by_user;
  current_project = some p;
}

unfoldable pub get_project_for_user : String → ProjectState → Option ProjectSummary
get_project_for_user email s = Dict.lookup email s.projects_by_user

unfoldable pub set_current_project : Option ProjectSummary → ProjectState → ProjectState
set_current_project p s = record s { current_project = p }

-- A user reads back what was set last for that user, null included, and other users read what they
-- read before.
pub get_project_for_user-set_project_for_user :
    (email j : String) (p : Option ProjectSummary) (s : ProjectState)
    → get_project_for_user j (set_project_for_user email p s)
      ≡ (if str_eq email j then p else get_project_for_user j s)
unfolding get_project_for_user set_project_for_user
get_project_for_user-set_project_for_user email j none s =
    Dict.lookup-delete email j s.projects_by_user
get_project_for_user-set_project_for_user email j (some p) s =
    Dict.lookup-set email j p s.projects_by_user

-- The actions of the store as data.
pub data Action : Type 0 where
  for_user : String → Option ProjectSummary → Action
  current : Option ProjectSummary → Action

pub act : Action → ProjectState → ProjectState
unfolding set_project_for_user set_current_project
act (for_user email p) s = set_project_for_user email p s
act (current p) s = set_current_project p s

pub run : List Action → ProjectState → ProjectState
run [] s = s
run (a ∷ rest) s = run rest (act a s)

act-Distinct :
    (a : Action) (s : ProjectState)
    → Dict.Distinct s.projects_by_user
    → Dict.Distinct (act a s).projects_by_user
unfolding act
act-Distinct (for_user email none) s h = Dict.delete-Distinct email s.projects_by_user h
act-Distinct (for_user email (some p)) s h = Dict.set-Distinct email p s.projects_by_user h
act-Distinct (current p) s h = h

run-act-Distinct :
    (actions : List Action) (s : ProjectState)
    → Dict.Distinct s.projects_by_user
    → Dict.Distinct (run actions s).projects_by_user
unfolding run
run-act-Distinct [] s h = h
run-act-Distinct (a ∷ rest) s h = run-act-Distinct rest (act a s) (act-Distinct a s h)

-- What the last of the actions for a user leaves for that user.
abbrev pub last_for : String → List Action → Option ProjectSummary → Option ProjectSummary
last_for j [] before = before
last_for j (for_user email p ∷ rest) before = last_for j rest (if str_eq email j then p else before)
last_for j (current p ∷ rest) before = last_for j rest before

get_project_for_user-run_from :
    (actions : List Action) (j : String) (s : ProjectState)
    → get_project_for_user j (run actions s) ≡ last_for j actions (get_project_for_user j s)
unfolding run act set_current_project get_project_for_user
get_project_for_user-run_from [] j s = refl
get_project_for_user-run_from (for_user email p ∷ rest) j s =
    get_project_for_user-run_from rest j (set_project_for_user email p s)
    ∙ ap (last_for j rest) (get_project_for_user-set_project_for_user email j p s)
get_project_for_user-run_from (current p ∷ rest) j s =
    get_project_for_user-run_from rest j (set_current_project p s)

-- After any actions, each user reads the project of the last action for that user, and no user has
-- two entries; `setCurrentProject` plays no part.
pub get_project_for_user-run :
    (actions : List Action) (j : String)
    → (get_project_for_user j (run actions initial) ≡ last_for j actions none)
      × Dict.Distinct (run actions initial).projects_by_user
unfolding get_project_for_user Dict.lookup
get_project_for_user-run actions j =
    (get_project_for_user-run_from actions j initial, run-act-Distinct actions initial tt)

pub data AppTheme : Type 0 where
  light dark : AppTheme

pub record ThemeState : Type 0 where
  pub theme : AppTheme

pub set_theme : AppTheme → ThemeState → ThemeState
set_theme theme s = record { theme = theme }

pub toggle_theme : ThemeState → ThemeState
toggle_theme s = record { theme = elim s.theme [ dark ↦ light | light ↦ dark ] }

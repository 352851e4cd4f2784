-- ===== src/Workspace/Navigation.antt =====
-- The paths of unified-sidebar.tsx and the items of nav-items.ts beside it.
pub mod Paths
use text.Mathlib.Text.{starts_with}
use project_hawkeye.Base.{
  ℕ, String, Bool, true, false, not, ◌&&◌, ◌||◌, List, [], ◌∷◌, map, filter, get_elem?, Option,
  none, some, if◌then◌else◌, str_eq,
}
use project_hawkeye.Base.Chars.{split}
use project_hawkeye.Base.Strings.{is_filled, ◌+++◌}

pub record NavItem : Type 0 where
  pub href : String
  pub label : String

unfoldable pub is_global_hub_path : String → Bool
is_global_hub_path pathname =
    str_eq pathname "/app"
    || str_eq pathname "/app/"
    || starts_with pathname "/app/account"
    || starts_with pathname "/app/billing"

-- `matchPathActive`; `exact` is that of an item of the footer.
unfoldable pub match_path_active : String → String → Bool → Bool
match_path_active pathname href exact =
    str_eq pathname href
    || (if exact then str_eq pathname (href +++ "/") else starts_with pathname (href +++ "/"))

unfoldable pub segments : String → List String
unfolding split
segments pathname = filter is_filled (split b'/' pathname)

-- `projectId`
unfoldable pub project_id : String → Option String
unfolding is_global_hub_path segments
project_id pathname = if is_global_hub_path pathname then none else get_elem? (segments pathname) 1

unfoldable pub get_primary_nav : String → List NavItem
get_primary_nav id =
    let p = "/app/" +++ id in
    record { href = p +++ "/dashboard"; label = "Dashboard" }
    ∷ record { href = p +++ "/test-cases"; label = "Test cases" }
    ∷ record { href = p +++ "/runs/live"; label = "Live" }
    ∷ record { href = p +++ "/artifacts"; label = "Artifacts" }
    ∷ record { href = p +++ "/suites"; label = "Test suites" }
    ∷ record { href = p +++ "/vault"; label = "The Vault" }
    ∷ []

unfoldable pub get_workspace_settings_nav : String → List NavItem
get_workspace_settings_nav id =
    let p = "/app/" +++ id in
    record { href = p +++ "/settings/project"; label = "Project" }
    ∷ record { href = p +++ "/settings/integrations"; label = "Integrations" }
    ∷ record { href = p +++ "/settings/org"; label = "Organization" }
    ∷ []

pub data HubKey : Type 0 where
  projects account billing : HubKey

unfoldable pub hub_key : String → HubKey
hub_key pathname =
    if starts_with pathname "/app/account"
    then account
    else if starts_with pathname "/app/billing"
    then billing
    else projects

unfoldable pub scope_active : String → NavItem → Bool
scope_active pathname item = str_eq pathname item.href || starts_with pathname (item.href +++ "/")

-- The two lists of the rail
unfoldable pub primary_nav : String → List NavItem
unfolding project_id get_primary_nav
primary_nav pathname = elim (project_id pathname) [ none ↦ [] | some id ↦ get_primary_nav id ]

unfoldable pub workspace_settings_nav : String → List NavItem
unfolding project_id get_workspace_settings_nav
workspace_settings_nav pathname = elim (project_id pathname) [
  | none ↦ []
  | some id ↦ get_workspace_settings_nav id
]

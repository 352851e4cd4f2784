-- ===== src/Settings/Integrations.antt =====
-- The integrations of a project:
-- Frontend/hawkeye-web/src/app/app/(workspace)/[projectId]/settings/integrations/page.tsx.
pub mod Agreement
use project_hawkeye.Base.{
  ℕ, String, Bool, true, false, not, ◌&&◌, ◌||◌, List, [], ◌∷◌, ◌++◌, filter, Option, none, some,
  or_else, if◌then◌else◌, str_eq,
}
use project_hawkeye.Base.Chars.{trim}
use project_hawkeye.Base.Strings.{is_filled}
use project_hawkeye.Client.Session.{is_ok}

-- `config` is the JSON of the configuration.
pub record Integration : Type 0 where
  pub id : String
  pub kind : String
  pub enabled : Bool
  pub config : String
  pub created_at : String

pub record Page : Type 0 where
  pub integrations : List Integration
  pub loading : Bool
  pub slack_url : String
  pub saving_slack : Bool
  pub gh_repo : String
  pub gh_install_id : String
  pub gh_branch : String
  pub saving_gh : Bool

abbrev pub initial : Page
initial = record {
  integrations = [];
  loading = true;
  slack_url = "";
  saving_slack = false;
  gh_repo = "";
  gh_install_id = "";
  gh_branch = "main";
  saving_gh = false;
}

-- What `fetch` gives: a rejection, or a status and the JSON
pub data Reply (T : Type 0) : Type 0 where
  rejected : Reply T
  replied : (status : ℕ) → T → Reply T

pub data Toast : Type 0 where
  success : String → Toast
  error : String → Toast

-- `load`; the JSON is `data.integrations`.
unfoldable pub load : Reply (Option (List Integration)) → Page → Page
load rejected p = record p { loading = false }
load (replied status found) p =
    if is_ok status
    then record p { integrations = or_else found []; loading = false }
    else record p { loading = false }

abbrev pub without : String → List Integration → List Integration
without id prev = filter (λ i. not (str_eq i.id id)) prev

-- `deleteIntegration`, on the reply, whose status it does not read
unfoldable pub delete_integration : String → Reply (Unit {0}) → Page → Page × Toast
delete_integration id rejected p = (p, error "Failed to remove integration")
delete_integration id (replied status json) p =
    (record p { integrations = without id p.integrations }, success "Integration removed")

pub record SlackRequest : Type 0 where
  pub webhook_url : String
  pub notify_on : List String

-- `saveSlack`, up to its request
unfoldable pub save_slack : Page → Page × Option SlackRequest
save_slack p = if not (is_filled (trim p.slack_url)) then (p, none) else (
  record p { saving_slack = true },
  some (record { webhook_url = trim p.slack_url; notify_on = "failure" ∷ "passed" ∷ [] }),
)

-- The rest of it
unfoldable pub slack_saved : Reply Integration → Page → Page × Toast
slack_saved rejected p =
    (record p { saving_slack = false }, error "Failed to save Slack integration")
slack_saved (replied status data') p =
    if is_ok status
    then (
      record p {
        integrations = p.integrations ++ data' ∷ [];
        slack_url = "";
        saving_slack = false;
      },
      success "Slack integration saved",
    )
    else (record p { saving_slack = false }, error "Failed to save Slack integration")

-- `number_of` is `Number(...)`, as JSON writes it.
pub record GitHubRequest : Type 0 where
  pub repo : String
  pub installation_id : String
  pub branch : String

unfoldable pub save_git_hub : (String → String) → Page → Page × Option GitHubRequest
save_git_hub number_of p =
    if not (is_filled (trim p.gh_repo)) || not (is_filled (trim p.gh_install_id))
    then (p, none)
    else (
      record p { saving_gh = true },
      some (record {
        repo = trim p.gh_repo;
        installation_id = number_of p.gh_install_id;
        branch = if is_filled (trim p.gh_branch) then trim p.gh_branch else "main";
      }),
    )

unfoldable pub git_hub_saved : Reply Integration → Page → Page × Toast
git_hub_saved rejected p =
    (record p { saving_gh = false }, error "Failed to save GitHub integration")
git_hub_saved (replied status data') p =
    if is_ok status
    then (
      record p {
        integrations = p.integrations ++ data' ∷ [];
        gh_repo = "";
        gh_install_id = "";
        gh_branch = "main";
        saving_gh = false;
      },
      success "GitHub integration saved",
    )
    else (record p { saving_gh = false }, error "Failed to save GitHub integration")

-- The lists that are shown
abbrev pub slack_integrations : Page → List Integration
slack_integrations p = filter (λ i. str_eq i.kind "slack") p.integrations

abbrev pub github_integrations : Page → List Integration
github_integrations p = filter (λ i. str_eq i.kind "github") p.integrations

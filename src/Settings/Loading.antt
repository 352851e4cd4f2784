-- ===== src/Settings/Loading.antt =====
-- How the pages of the vault, of the organization and of a project load, and the forms of the vault
-- and of the organization: vault/page.tsx, settings/org/page.tsx and settings/project/page.tsx under
-- Frontend/hawkeye-web/src/app/app/(workspace)/[projectId]/.
use project_hawkeye.Base.{
  String, Bool, true, false, not, ◌||◌, List, Option, none, some, or_else, take, if◌then◌else◌,
}
use project_hawkeye.Base.Chars.{trim}
use project_hawkeye.Base.Strings.{is_filled, includes}
use project_hawkeye.Runs.{RunSummary}
use project_hawkeye.Settings.Members.{ProjectMember}
use project_hawkeye.Settings.Organization.{OrgMember, Invitation}
use project_hawkeye.Settings.{VaultSecret, Vault}

-- What a request comes to: an answer, or the text of its exception
pub data Answer {ℓ} (T : Type ℓ) : Type ℓ where
  came : T → Answer T
  threw : (message : String) → Answer T

-- The page of the vault, less its filters
pub record VaultPage : Type 0 where
  pub vault : Vault
  pub loading : Bool
  pub error : Option String
  pub show_add : Bool
  pub new_name : String
  pub new_value : String
  pub new_env : String
  pub new_type : String
  pub adding : Bool

-- `loadSecrets`, on both answers
unfoldable pub load_secrets : Answer (List VaultSecret) → VaultPage → VaultPage
load_secrets (came secrets) p = record p {
  vault = record p.vault { secrets = secrets };
  loading = false;
}
load_secrets (threw message) p = record p {
  error = some (
      if includes message "403"
      then "You don't have access to this project's vault."
      else "Failed to load secrets.");
  loading = false;
}

pub record SecretRequest : Type 0 where
  pub name : String
  pub value : String
  pub environment : String
  pub kind : String

-- `handleAdd`, up to its request
unfoldable pub handle_add : VaultPage → VaultPage × Option SecretRequest
handle_add p =
    if not (is_filled (trim p.new_name)) || not (is_filled (trim p.new_value)) then (p, none) else (
      record p { adding = true },
      some (record {
        name = trim p.new_name;
        value = trim p.new_value;
        environment = p.new_env;
        kind = p.new_type;
      }),
    )

-- The rest of it: the page, whether the list is loaded again, and the message
unfoldable pub added : Answer (Unit {0}) → VaultPage → VaultPage × Bool × String
added (came done) p = (
  record p { new_name = ""; new_value = ""; show_add = false; adding = false },
  true,
  "Secret added",
)
added (threw message) p = (
  record p { adding = false },
  false,
  if includes message "409"
      then "A secret with that name already exists"
      else "Failed to add secret",
)

pub record Org : Type 0 where
  pub name : String
  pub billing_email : Option String
  pub plan : String

pub record OrgPage : Type 0 where
  pub org_name : String
  pub org_billing_email : String
  pub org_plan : String
  pub members : List OrgMember
  pub invitations : List Invitation
  pub loading : Bool
  pub saving : Bool

-- `load` of the organization: its three requests are awaited together.
unfoldable pub load_org : Answer (Org × List OrgMember × List Invitation) → OrgPage → OrgPage
load_org (came (org, members, invitations)) p = record p {
  org_name = org.name;
  org_billing_email = or_else org.billing_email "";
  org_plan = org.plan;
  members = members;
  invitations = invitations;
  loading = false;
}
load_org (threw message) p = record p { loading = false }

-- `handleSaveGeneral`: the name and the billing address that it sends, `none` for an address that is
-- left out, and its `finally`
unfoldable pub save_general : OrgPage → OrgPage × String × Option String
save_general p = (
  record p { saving = true },
  p.org_name,
  if is_filled p.org_billing_email then some p.org_billing_email else none,
)

unfoldable pub general_saved : OrgPage → OrgPage
general_saved p = record p { saving = false }

pub record Project : Type 0 where
  pub id : String
  pub name : String
  pub description : Option String

pub record ProjectPage : Type 0 where
  pub project : Option Project
  pub members : List ProjectMember
  pub edit_name : String
  pub edit_desc : String
  pub loading : Bool
  pub recent_runs : List RunSummary

-- `load` of a project: the page, and whether it goes on to the statistics and the runs
unfoldable pub load_project :
    Answer (Project × List ProjectMember) → ProjectPage → ProjectPage × Bool
load_project (came (proj, members)) p = (
  record p {
    project = some proj;
    members = members;
    edit_name = proj.name;
    edit_desc = or_else proj.description "";
    loading = false;
  },
  true,
)
load_project (threw message) p = (record p { loading = false }, false)

unfoldable pub load_recent_runs : Answer (List RunSummary) → ProjectPage → ProjectPage
load_recent_runs (came runs) p = record p { recent_runs = take 5 runs }
load_recent_runs (threw message) p = p

-- ===== src/Settings.antt =====
-- The environments and the vault of a project: the handlers of
-- Frontend/hawkeye-web/src/app/app/(workspace)/[projectId]/settings/environments/page.tsx and of
-- vault/page.tsx in that folder. A handler whose request fails changes nothing.
pub mod Formats
pub mod Defaults
pub mod Secrets
pub mod Organization
pub mod Members
pub mod Integrations
pub mod Loading
use project_hawkeye.Base.{
  ℕ, String, Bool, true, false, not, ◌&&◌, ◌||◌, List, [], ◌∷◌, ◌++◌, map, filter, Option, none,
  some, or_else, if◌then◌else◌, str_eq,
}
use project_hawkeye.Base.Dict
use project_hawkeye.Base.Dict.{Dict}
use project_hawkeye.Base.Strings.{is_filled, includes, ◌+++◌}

pub record Environment : Type 0 where
  pub id : String
  pub project_id : String
  pub name : String
  pub base_url : String
  pub is_default : Bool
  pub headers : Dict String
  pub created_at : String

-- `setEnvs` of `handleCreate`, with the form's `isDefault` and the server's answer
unfoldable pub handle_create : Bool → Environment → List Environment → List Environment
handle_create is_default env prev =
    if is_default
    then map (λ (e : Environment). record e { is_default = false }) prev ++ env ∷ []
    else prev ++ env ∷ []

unfoldable pub handle_set_default : String → List Environment → List Environment
handle_set_default id prev =
    map (λ (e : Environment). record e { is_default = str_eq e.id id }) prev

unfoldable pub handle_delete : String → List Environment → List Environment
handle_delete id prev = filter (λ e. not (str_eq e.id id)) prev

-- What the page does, and whether the server answered.
pub data EnvironmentEvent : Type 0 where
  created : (is_default : Bool) (env : Environment) → EnvironmentEvent
  set_default : (id : String) → EnvironmentEvent
  deleted : (id : String) → EnvironmentEvent
  failed : EnvironmentEvent

unfoldable pub on_environment : EnvironmentEvent → List Environment → List Environment
unfolding handle_create handle_set_default handle_delete
on_environment (created is_default env) envs = handle_create is_default env envs
on_environment (set_default id) envs = handle_set_default id envs
on_environment (deleted id) envs = handle_delete id envs
on_environment failed envs = envs

unfoldable pub on_environments : List EnvironmentEvent → List Environment → List Environment
unfolding on_environment
on_environments [] envs = envs
on_environments (e ∷ rest) envs = on_environments rest (on_environment e envs)

pub record VaultSecret : Type 0 where
  pub id : String
  pub name : String
  pub environment : String
  pub kind : String
  pub masked_value : String
  pub value : Option String
  pub updated_at : String
  pub created_at : String

pub record Vault : Type 0 where
  pub secrets : List VaultSecret
  pub revealed_values : Dict String

-- `handleReveal`, with the answer of the server to the request that it may make
unfoldable pub handle_reveal : String → Option (Option String) → Vault → Vault
handle_reveal id answer v = elim (Dict.lookup id v.revealed_values) [
  | some shown ↦ record v { revealed_values = Dict.delete id v.revealed_values }
  | none ↦ elim answer [
    | none ↦ v
    | some value ↦ record v { revealed_values = Dict.set id (or_else value "") v.revealed_values }
  ]
]

-- The text that `handleCopy` writes to the clipboard, if it gets one.
unfoldable pub copied : String → Option (Option String) → Vault → Option String
copied id answer v = elim (Dict.lookup id v.revealed_values) [
  | some shown ↦ some shown
  | none ↦ elim answer [ none ↦ none | some value ↦ some (or_else value "") ]
]

unfoldable pub delete_secret : String → Vault → Vault
delete_secret id v = record v { secrets = filter (λ s. not (str_eq s.id id)) v.secrets }

module _ (trim lower : String → String) where
  unfoldable pub is_listed : String → String → String → VaultSecret → Bool
  is_listed q env typ s =
      (str_eq env "All Environments" || str_eq s.environment env)
      && (str_eq typ "All Types" || str_eq s.kind typ)
      && (not (is_filled (lower (trim q)))
          || includes (lower (s.name +++ " " +++ s.environment +++ " " +++ s.kind))
              (lower (trim q)))

  unfoldable pub filtered_secrets : String → String → String → List VaultSecret → List VaultSecret
  unfolding is_listed
  filtered_secrets q env typ secrets = filter (is_listed q env typ) secrets

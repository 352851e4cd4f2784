-- ===== src/Editor/Spec.antt =====
-- The specification of a test case (`TestCaseSpec` of Frontend/hawkeye-web/src/lib/api/client.ts) and
-- the form of its editor, test-cases/[id]/page.tsx. A field that `loadTc` guards with `?.` or `??` is
-- an option.
use project_hawkeye.Base.{ℕ, String, Bool, true, false, List, [], Option, none, some, or_else}
use project_hawkeye.Base.Chars.{join}
use project_hawkeye.Base.Dict.{Dict}
use project_hawkeye.Editor.{Checkpoint, Steps, load_checkpoints}
use project_hawkeye.Editor.Headers.Vault.{VaultHeader, split_headers}
use project_hawkeye.Runs.{Viewport}

pub record Constraints : Type 0 where
  pub max_steps : Option ℕ
  pub timeout_seconds : Option ℕ
  pub max_retries_per_action : Option ℕ

pub record GoalSpec : Type 0 where
  pub objective : Option String
  pub constraints : Option Constraints
  pub extra_details : Option String
  pub steps : Option (List Checkpoint)

pub record VaultEntry : Type 0 where
  pub key : String
  pub value : String

pub record Target : Type 0 where
  pub url : Option String
  pub browser : Option String
  pub viewport : Option Viewport
  pub page_type : Option String
  pub app_description : Option String
  pub vault : List VaultEntry
  pub locale : Option String
  pub timezone : Option String
  pub extra_headers : Option (Dict String)
  pub block_urls : List String

pub record Capture : Type 0 where
  pub screenshot : Option Bool
  pub dom_snapshot : Option Bool
  pub network_log : Option Bool
  pub console_log : Option Bool
  pub agent_trace : Option Bool
  pub video : Option Bool

-- `assertions` and `notify` are the JSON of each entry.
pub record OnFailure : Type 0 where
  pub capture : Option Capture
  pub notify : Dict String

pub record Spec : Type 0 where
  pub name : String
  pub goal : Option GoalSpec
  pub suite : Option String
  pub priority : Option String
  pub tags : Option (List String)
  pub created_by : Option String
  pub target : Option Target
  pub assertions : List String
  pub on_failure : Option OnFailure

-- What `getProjectTestCase` gives
pub record TestCase : Type 0 where
  pub save_record : Option Bool
  pub spec : Spec

-- The state of the page from "Overview" to "Steps"
pub record Form : Type 0 where
  pub name : String
  pub goal : String
  pub suite : String
  pub priority : String
  pub tags : List String
  pub url : String
  pub browser : String
  pub vp_width : ℕ
  pub vp_height : ℕ
  pub vp_dpr : ℕ
  pub locale : String
  pub timezone : String
  pub extra_headers : String
  pub vault_headers : List VaultHeader
  pub max_steps : ℕ
  pub timeout_s : ℕ
  pub max_retries : ℕ
  pub save_record : Bool
  pub extra_details : String
  pub page_type : String
  pub app_desc : String
  pub cap_screenshot : Bool
  pub cap_dom_snapshot : Bool
  pub cap_network_log : Bool
  pub cap_console_log : Bool
  pub cap_agent_trace : Bool
  pub cap_video : Bool
  pub steps : Steps

-- `o?.f`
abbrev pub through : {A B : Type 0} → (A → Option B) → Option A → Option B
through f none = none
through f (some a) = f a

-- The setters of `loadTc`. `device_scale_factor` is in tenths.
module _ (digits : ℕ → String) (uuid : ℕ → String) where
  unfoldable pub load_form : TestCase → Form
  unfolding split_headers join load_checkpoints
  load_form data' =
      let s = data'.spec in
      let bounds = through (λ (g : GoalSpec). g.constraints) s.goal in
      let viewport = through (λ (t : Target). t.viewport) s.target in
      let cap = through (λ (f : OnFailure). f.capture) s.on_failure in
      let headers =
        split_headers uuid (or_else (through (λ (t : Target). t.extra_headers) s.target) []) 0 in
      record {
        name = s.name;
        goal = or_else (through (λ (g : GoalSpec). g.objective) s.goal) "";
        suite = or_else s.suite "";
        priority = or_else s.priority "P1";
        tags = or_else s.tags [];
        url = or_else (through (λ (t : Target). t.url) s.target) "";
        browser = or_else (through (λ (t : Target). t.browser) s.target) "chromium";
        vp_width = or_else (through (λ (v : Viewport). some v.width) viewport) 1280;
        vp_height = or_else (through (λ (v : Viewport). some v.height) viewport) 720;
        vp_dpr = or_else (through (λ (v : Viewport). v.device_scale_factor) viewport) 10;
        locale = or_else (through (λ (t : Target). t.locale) s.target) "";
        timezone = or_else (through (λ (t : Target). t.timezone) s.target) "";
        extra_headers = join "\n" headers.0;
        vault_headers = headers.1;
        page_type = or_else (through (λ (t : Target). t.page_type) s.target) "spa";
        app_desc = or_else (through (λ (t : Target). t.app_description) s.target) "";
        max_steps = or_else (through (λ (c : Constraints). c.max_steps) bounds) 30;
        timeout_s = or_else (through (λ (c : Constraints). c.timeout_seconds) bounds) 180;
        max_retries = or_else (through (λ (c : Constraints). c.max_retries_per_action) bounds) 2;
        save_record = or_else data'.save_record false;
        extra_details = or_else (through (λ (g : GoalSpec). g.extra_details) s.goal) "";
        cap_screenshot = or_else (through (λ (c : Capture). c.screenshot) cap) true;
        cap_dom_snapshot = or_else (through (λ (c : Capture). c.dom_snapshot) cap) true;
        cap_network_log = or_else (through (λ (c : Capture). c.network_log) cap) true;
        cap_console_log = or_else (through (λ (c : Capture). c.console_log) cap) true;
        cap_agent_trace = or_else (through (λ (c : Capture). c.agent_trace) cap) true;
        cap_video = or_else (through (λ (c : Capture). c.video) cap) false;
        steps = load_checkpoints digits (or_else (through (λ (g : GoalSpec). g.steps) s.goal) []);
      }

-- ===== src/Editor/Save.antt =====
-- Saving and loading in the test case editor, test-cases/[id]/page.tsx: `handleSave` and `loadTc`,
-- each cut where it waits for the server.
pub mod RoundTrip
pub mod Cycle
use Prim.Native.String
use project_hawkeye.Base.{
  ℕ, suc, ◌+◌, String, Bool, true, false, not, ◌&&◌, ◌||◌, List, [], ◌∷◌, ◌++◌, Option, none, some,
  map, filter, length, or_else, if◌then◌else◌, ltb, leb, str_eq,
}
use project_hawkeye.Base.Chars.{trim, text_length}
use project_hawkeye.Base.Dict.{Dict}
use project_hawkeye.Base.Strings.{is_filled, ◌+++◌}
use project_hawkeye.Editor.{Steps, steps_valid}
use project_hawkeye.Editor.Headers.{parse_headers}
use project_hawkeye.Editor.Headers.Vault.{VaultHeader, merge}
use project_hawkeye.Editor.Spec.{Form, Spec, TestCase, VaultEntry, load_form}
use project_hawkeye.Editor.Words.{word_count}

-- `s || null`
abbrev pub or_null : String → Option String
or_null s = if is_filled s then some s else none

-- `Object.keys(h).length ? h : null`
abbrev pub headers_or_null : Dict String → Option (Dict String)
headers_or_null [] = none
headers_or_null (entry ∷ h) = some (entry ∷ h)

unfoldable pub vault_of : List VaultHeader → List VaultEntry
vault_of [] = []
vault_of (vh ∷ refs) =
    if is_filled vh.secret_name
    then record { key = vh.secret_name; value = "" } ∷ vault_of refs
    else vault_of refs

-- `body`; `email` is that of the session.
unfoldable pub body : Option String → Form → TestCase
unfolding vault_of parse_headers merge
body email f = record {
  save_record = some f.save_record;
  spec = record {
    name = f.name;
    created_by = email;
    goal = some (record {
      objective = some f.goal;
      constraints = some (record {
        max_steps = some f.max_steps;
        timeout_seconds = some f.timeout_s;
        max_retries_per_action = some f.max_retries;
      });
      extra_details = or_null f.extra_details;
      steps = if ltb 0 (length f.steps.checkpoints) then some f.steps.checkpoints else none;
    });
    suite = or_null f.suite;
    priority = some f.priority;
    tags = some f.tags;
    target = some (record {
      url = some f.url;
      browser = some f.browser;
      viewport = some (record {
        width = f.vp_width;
        height = f.vp_height;
        device_scale_factor = some f.vp_dpr;
      });
      page_type = some f.page_type;
      app_description = or_null f.app_desc;
      vault = vault_of f.vault_headers;
      locale = or_null f.locale;
      timezone = or_null f.timezone;
      extra_headers = headers_or_null (merge f.vault_headers (parse_headers f.extra_headers));
      block_urls = [];
    });
    assertions = [];
    on_failure = some (record {
      capture = some (record {
        screenshot = some f.cap_screenshot;
        dom_snapshot = some f.cap_dom_snapshot;
        network_log = some f.cap_network_log;
        console_log = some f.cap_console_log;
        agent_trace = some f.cap_agent_trace;
        video = some f.cap_video;
      });
      notify = [];
    });
  };
}

-- The page, less the lists of suites, secrets and runs
pub record Page : Type 0 where
  pub form : Form
  pub tc : Option TestCase
  pub loading : Bool
  pub saving : Bool
  pub saved_view : Bool

pub data Effect : Type 0 where
  toast_success : String → Effect
  toast_error : String → Effect
  push : String → Effect

pub data Call : Type 0 where
  create : TestCase → Call
  update : TestCase → Call
  get : Call

abbrev pub name_valid : Form → Bool
name_valid f = leb 10 (text_length (trim f.name))

abbrev pub goal_valid : Form → Bool
goal_valid f = leb 30 (word_count f.goal)

-- `protocol_of` is `new URL(val).protocol`, with `none` where the constructor throws.
module _ (protocol_of : String → Option String) where
  unfoldable pub is_valid_url : String → Bool
  is_valid_url val = elim (protocol_of val) [
    | none ↦ false
    | some p ↦ str_eq p "https:" || str_eq p "http:"
  ]

  unfoldable pub handle_save : Bool → Option String → Page → Page × List Effect × Option Call
  unfolding body is_valid_url steps_valid
  handle_save is_new email p =
      if not (name_valid p.form)
      then (p, toast_error "Name must be at least 10 characters" ∷ [], none)
      else if not (is_valid_url p.form.url)
      then (p, toast_error "A valid target URL is required (set it in Config tab)" ∷ [], none)
      else if not (goal_valid p.form)
      then (p, toast_error "Goal must be at least 30 words" ∷ [], none)
      else if not (steps_valid trim p.form.steps.checkpoints)
      then (
        p,
        toast_error "Add at least one step with description and success signal (Steps tab)" ∷ [],
        none,
      )
      else (
        record p { saving = true },
        [],
        some (if is_new then create (body email p.form) else update (body email p.form)),
      )

-- What stands behind the `await`s; `none` and `false` are rejections.
module _ (digits : ℕ → String) (uuid : ℕ → String) (project_id : String) where
  abbrev list_path : String
  list_path = "/app/" +++ (project_id +++ "/test-cases")

  unfoldable pub created : Option String → Page → Page × List Effect
  created none p = (record p { saving = false }, toast_error "Failed to save" ∷ [])
  created (some id) p = (
    record p { saving = false },
    toast_success "Test case created" ∷ push (list_path +++ ("/" +++ id)) ∷ [],
  )

  -- The end of `loadTc`
  unfoldable pub loaded : Option TestCase → Page → Page × List Effect
  unfolding load_form
  loaded none p =
      (record p { loading = false }, toast_error "Failed to load test case" ∷ push list_path ∷ [])
  loaded (some tc) p =
      (record p { form = load_form digits uuid tc; tc = some tc; loading = false }, [])

  -- `updateProjectTestCase` has answered, and `loadTc` calls the server if it did well.
  unfoldable pub updated : Bool → Page → Page × List Effect × Option Call
  updated false p = (record p { saving = false }, toast_error "Failed to save" ∷ [], none)
  updated true p =
      (record p { saved_view = true; loading = true }, toast_success "Saved" ∷ [], some get)

  -- The call of `loadTc` in `handleSave`, with the `finally` of the latter
  unfoldable pub reloaded : Option TestCase → Page → Page × List Effect
  unfolding loaded
  reloaded answer p = let (q, effects) = loaded answer p in (record q { saving = false }, effects)

-- The call of `loadTc` when the page opens
unfoldable pub open_page : Bool → Page → Page × Option Call
open_page true p = (record p { loading = false }, none)
open_page false p = (record p { loading = true }, some get)

-- `Run` is offered.
abbrev pub can_run : Bool → Page → Bool
can_run is_new p = not is_new && p.saved_view

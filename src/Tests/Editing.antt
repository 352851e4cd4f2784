-- ===== src/Tests/Editing.antt =====
-- The editor of test cases: headers, words, and a whole save.
use text.Mathlib.Text.{starts_with}
use project_hawkeye.Base.{
  ℕ, String, true, false, List, [], ◌∷◌, length, Option, none, some, if◌then◌else◌, ◌≡◌, refl,
  arith,
}
use project_hawkeye.Base.Chars.{text_length, trim, index_of, slice_from, has_char, split}
use project_hawkeye.Base.Dict
use project_hawkeye.Base.Dict.{Dict}
use project_hawkeye.Base.Strings.{◌+++◌, slice}
use project_hawkeye.Editor.Checks.{url_checked, url_typed, check_url, idle, ok}
use project_hawkeye.Settings.Formats.{org_initials, project_initials}
use project_hawkeye.Editor.{steps_valid, Checkpoint}
use project_hawkeye.Editor.Headers.{parse_headers, format_headers, header_lines}
use project_hawkeye.Editor.Headers.RoundTrip.{parse_headers-format_headers, parse_headers_again}
use project_hawkeye.Editor.Headers.Vault.{VaultHeader, vault_ref, merge, split_headers}
use project_hawkeye.Editor.Headers.Vault.Split.{with_ids, split_headers-merge}
use project_hawkeye.Editor.Save.{is_valid_url, body, Page, update, handle_save, updated, reloaded}
use project_hawkeye.Editor.Save.Cycle.{
  is_valid, handle_save_lem, reloaded-handle_save, body-load_form,
}
use project_hawkeye.Editor.Save.RoundTrip.{HasHeaders, settled}
use project_hawkeye.Editor.Spec.{Form, load_form}
use project_hawkeye.Editor.Words.{word_count, visible}
use project_hawkeye.Editor.Words.Runs.{words, word_count-words}

abbrev two_headers : Dict String
two_headers = ("Accept", "text/html") ∷ ("X-Env", "a: b") ∷ []

parse_headers-format_headers_test :
    parse_headers (format_headers (some two_headers)) ≡ Dict.delete "" two_headers
parse_headers-format_headers_test =
    parse_headers-format_headers two_headers (unfold Dict.lookup in (refl, (refl, tt))) (
      unfold has_char trim in
      ((refl, refl, refl, refl, refl), ((refl, refl, refl, refl, refl), tt)))

abbrev typed : String
typed = "Accept :text/html\n : nameless\nno header\nX-Env:  staging "

parse_headers_test :
    parse_headers typed ≡ ("Accept", "text/html") ∷ ("", "nameless") ∷ ("X-Env", "staging") ∷ []
unfolding parse_headers split trim Dict.set index_of slice slice_from
parse_headers_test = refl

parse_headers_again_example :
    parse_headers (format_headers (some (parse_headers typed)))
    ≡ Dict.delete "" (parse_headers typed)
parse_headers_again_example = parse_headers_again typed

abbrev html : String
html = "<p>Open the&nbsp;shop,  then <b>buy</b> &lt; two </p>"

word_count_test : word_count html ≡ 6
unfolding word_count
word_count_test = refl

word_count-words_example : word_count html ≡ words (visible html)
word_count-words_example = word_count-words html

abbrev digits : ℕ → String
digits n = "1"

abbrev uuid : ℕ → String
uuid n = "new"

abbrev token_header : List VaultHeader
token_header = record { id = "old"; header_name = "Authorization"; secret_name = "TOKEN" } ∷ []

split_headers-merge_test :
    split_headers uuid (merge token_header two_headers) 0
    ≡ (header_lines two_headers, with_ids uuid 0 token_header)
split_headers-merge_test =
    split_headers-merge uuid two_headers token_header (unfold vault_ref in (refl, (refl, tt)))
      (unfold trim has_char in ((refl, refl, refl, refl), tt)) (unfold Dict.lookup in (refl, tt))
      (unfold Dict.lookup in (refl, tt))

abbrev one_step : Checkpoint
one_step = record { id = "S1"; description = "Log in"; success_signal = "The dashboard is shown" }

abbrev ten_words : String
ten_words = "open the shop and buy two of the red shoes "

abbrev typed_headers : String
typed_headers = "Accept :text/html\nX-Env:  staging "

abbrev form : Form
form = record {
  name = "Buy red shoes";
  goal = "<p>" +++ ten_words +++ ten_words +++ ten_words +++ "</p>";
  suite = "";
  priority = "P1";
  tags = "shop" ∷ [];
  url = "https://shop.example";
  browser = "chromium";
  vp_width = 1280;
  vp_height = 720;
  vp_dpr = 10;
  locale = "en-GB";
  timezone = "";
  extra_headers = typed_headers;
  vault_headers = token_header;
  max_steps = 30;
  timeout_s = 180;
  max_retries = 2;
  save_record = false;
  extra_details = "";
  page_type = "spa";
  app_desc = "";
  cap_screenshot = true;
  cap_dom_snapshot = true;
  cap_network_log = true;
  cap_console_log = true;
  cap_agent_trace = true;
  cap_video = false;
  steps = record { checkpoints = one_step ∷ []; active_checkpoint = some 0 };
}

form-HasHeaders : HasHeaders form
unfolding parse_headers split trim Dict.set vault_ref has_char Dict.lookup index_of slice slice_from
form-HasHeaders = ((refl, (refl, tt)), ((refl, refl, refl, refl), tt), (refl, tt), (refl, tt))

form_named : Dict.lookup "" (parse_headers form.extra_headers) ≡ none
unfolding parse_headers split trim Dict.set Dict.lookup index_of slice slice_from
form_named = refl

abbrev protocol_of : String → Option String
protocol_of url = if starts_with url "https:" then some "https:" else none

form_valid : is_valid protocol_of form ≡ true
unfolding text_length trim is_valid_url word_count steps_valid
form_valid = refl

body-load_form_example :
    body (some "ann@x") (load_form digits uuid (body (some "ann@x") form))
    ≡ body (some "ann@x") form
body-load_form_example =
    body-load_form digits uuid (some "ann@x") form form-HasHeaders form_named (refl, omega arith)

abbrev page : Page
page = record { form = form; tc = none; loading = false; saving = false; saved_view = false }

handle_save_lem_test :
    ((handle_save protocol_of false none page).2
      ≡ (if is_valid protocol_of form then some (update (body none form)) else none))
    × ((handle_save protocol_of false none page).0
        ≡ (if is_valid protocol_of form then record page { saving = true } else page))
    × (length (handle_save protocol_of false none page).1
        ≡ (if is_valid protocol_of form then 0 else 1))
handle_save_lem_test = handle_save_lem protocol_of false none page

reloaded-handle_save_example :
    (reloaded digits uuid "p1"
      (some (body none form))
      (updated digits uuid "p1" true (handle_save protocol_of false none page).0).0).0
    ≡ record page { form = settled digits uuid form; tc = some (body none form); saved_view = true }
reloaded-handle_save_example =
    reloaded-handle_save protocol_of digits uuid "p1" none page form_valid form-HasHeaders

-- The address that was checked is not the one that the mark stands beside.
late_test :
    (url_checked true (
      url_typed "b" (
        check_url
          (λ s. some "https:")
          (record { url = "https://a"; url_status = idle; asked = [] })))).url_status
    ≡ ok
unfolding url_checked check_url url_typed
late_test = refl

org_initials_test : org_initials (λ s. s) "ada@b.io" (some "  ") ≡ "ad"
unfolding org_initials
org_initials_test = refl

project_initials_test : project_initials (λ s. s) "ada@b.io" (some "  ") ≡ "  "
unfolding project_initials
project_initials_test = refl

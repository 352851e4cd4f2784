-- ===== src/Tests/Pages.antt =====
-- The tables, the settings, the editor and the page of live runs.
use project_hawkeye.Base.{
  ℕ, ◌+◌, ◌≤◌, String, Bool, true, false, List, [], ◌∷◌, ◌||◌, length, filter, count_by, none, some,
  or_else, if◌then◌else◌, ◌≡◌, refl, arith,
}
use project_hawkeye.Base.Dict
use project_hawkeye.Base.Strings.{contains}
use project_hawkeye.Runs.{running, passed, failed, RunSummary, is_terminal}
use project_hawkeye.Tables.Pages.{dots, number, numbers, buttons, total_pages, page_rows}
use project_hawkeye.Tables.Pages.Rows.{rows_of_pages, rows_of_pages_lem, length-page_rows}
use project_hawkeye.Base.Chars.{text_length}
use project_hawkeye.Base.Strings.{◌+++◌}
use project_hawkeye.Tables.Avatar.{gravatar_hash, hash_number, hex, zeros}
use project_hawkeye.Tables.Avatar.Zeros.{value, gravatar_hash-zeros}
use project_hawkeye.Tables.Runs.{metrics, completed}
use project_hawkeye.Tables.Runs.Totals.{IsLatestFirst, metrics_lem, completed_lem}
use project_hawkeye.Settings.{
  Environment, EnvironmentEvent, created, set_default, on_environments, Vault, handle_reveal,
  copied,
}
use project_hawkeye.Settings.Defaults.{IsSound, on_environments-IsSound}
use project_hawkeye.Settings.Secrets.{handle_reveal_lem}
use project_hawkeye.Editor.{added, removed, Steps, edits}
use project_hawkeye.Editor.Numbering.{IsNumbered, edits-IsNumbered}
use project_hawkeye.Live.{log_lines, step_count, shown_status, is_done}
use project_hawkeye.Live.Panel.{is_step_line, step_count-log_lines, shown_status_lem}
use project_hawkeye.Hooks.TraceStream.{TraceEvent, EventType, step_start, act}
use project_hawkeye.Tests.Data.{run_at}

abbrev eleven : List ℕ
eleven = numbers 1 11

rows_of_pages_lem_example :
    (rows_of_pages 10 (total_pages 10 (length eleven)) eleven ≡ eleven)
    × (rows_of_pages 15 (total_pages 15 (length eleven)) eleven ≡ eleven)
rows_of_pages_lem_example = rows_of_pages_lem eleven

length-page_rows_test :
    (1 ≤ length (page_rows 10 7 eleven))
    × (length (page_rows 10 7 eleven) ≤ 10)
    × (1 ≤ length (page_rows 15 7 eleven))
    × (length (page_rows 15 7 eleven) ≤ 15)
length-page_rows_test = length-page_rows 7 eleven (omega arith) (omega arith)

buttons_test : buttons 5 9 ≡ number 1 ∷ dots ∷ number 4 ∷ number 5 ∷ number 6 ∷ dots ∷ number 9 ∷ []
unfolding buttons
buttons_test = refl

abbrev some_runs : List RunSummary
some_runs = run_at "r1" passed 5 ∷ run_at "r2" running 9 ∷ run_at "r3" failed 8 ∷ []

metrics_lem_example :
    ((metrics some_runs).active + (metrics some_runs).completed ≡ (metrics some_runs).total)
    × ((metrics some_runs).passed ≤ (metrics some_runs).completed)
    × (or_else (metrics some_runs).pass_rate 0 ≤ 100)
metrics_lem_example = metrics_lem some_runs

abbrev same : String → String
same s = s

abbrev is_late : RunSummary → Bool
is_late r = is_terminal r.status

completed_lem_test :
    IsLatestFirst (completed same same (some some_runs))
    × (count_by is_late (completed same same (some some_runs))
        ≡ count_by is_late (filter (λ r. is_terminal r.status) some_runs))
completed_lem_test = completed_lem same same is_late some_runs

abbrev environment_of : String → Bool → Environment
environment_of id is_default = record {
  id = id;
  project_id = "p";
  name = id;
  base_url = "http://x";
  is_default = is_default;
  headers = [];
  created_at = "";
}

abbrev settled : List EnvironmentEvent
settled = created true (environment_of "e2" true) ∷ set_default "e1" ∷ []

on_environments-IsSound_example : IsSound (on_environments settled (environment_of "e1" true ∷ []))
unfolding contains
on_environments-IsSound_example =
    on_environments-IsSound settled (environment_of "e1" true ∷ []) (refl, refl, tt)
      ((refl, tt), omega arith)

abbrev digits : ℕ → String
digits n = "1"

abbrev nothing : Steps
nothing = record { checkpoints = []; active_checkpoint = none }

edits-IsNumbered_example : IsNumbered digits (edits digits (added ∷ added ∷ removed 0 ∷ []) nothing)
edits-IsNumbered_example =
    edits-IsNumbered digits (added ∷ added ∷ removed 0 ∷ []) nothing (refl, refl)

abbrev hidden_vault : Vault
hidden_vault = record { secrets = []; revealed_values = ("k2", "two") ∷ [] }

handle_reveal_lem_test :
    (copied "k1" none (handle_reveal "k1" (some (some "one")) hidden_vault)
      ≡ some (or_else (some "one") ""))
    × (Dict.lookup "k1"
          (handle_reveal "k1" none
            (handle_reveal "k1" (some (some "one")) hidden_vault)).revealed_values
        ≡ none)
    × (Dict.lookup "k2" (handle_reveal "k1" (some (some "one")) hidden_vault).revealed_values
        ≡ Dict.lookup "k2" hidden_vault.revealed_values)
    × (Dict.lookup "k2"
          (handle_reveal "k1" none
            (handle_reveal "k1" (some (some "one")) hidden_vault)).revealed_values
        ≡ Dict.lookup "k2" hidden_vault.revealed_values)
unfolding Dict.lookup
handle_reveal_lem_test = handle_reveal_lem "k1" "k2" (some "one") none hidden_vault refl refl

abbrev event_at : EventType → TraceEvent
event_at t = record {
  event_type = t;
  run_id = "r1";
  step_number = none;
  content = record {
    status = none;
    step_number = some 1;
    url = none;
    input_tokens = none;
    output_tokens = none;
    cost_usd = none;
    tool_name = some "click";
    success = some false;
    message = none;
  };
  timestamp = 7;
}

step_count-log_lines_test :
    step_count (event_at step_start ∷ event_at act ∷ [])
    ≡ count_by is_step_line (log_lines (event_at step_start ∷ event_at act ∷ []))
step_count-log_lines_test = step_count-log_lines (event_at step_start ∷ event_at act ∷ [])

shown_status_lem_test :
    (shown_status (some failed) (some running)
      ≡ some (if is_terminal failed then failed else running))
    × (is_done (shown_status (some failed) (some running))
        ≡ is_terminal failed || is_terminal running)
shown_status_lem_test = shown_status_lem failed running

gravatar_hash-zeros_example :
    ((tail : String) × (gravatar_hash (λ s. s) (λ s. 97 ∷ []) "a" ≡ zeros 24 +++ tail)
      × (text_length tail ≡ 8))
    × (value 0 (hex 7 (hash_number (λ s. s) (λ s. 97 ∷ []) "a"))
        ≡ hash_number (λ s. s) (λ s. 97 ∷ []) "a")
gravatar_hash-zeros_example = gravatar_hash-zeros (λ s. s) (λ s. 97 ∷ []) "a"

gravatar_hash_test : gravatar_hash (λ s. s) (λ s. 97 ∷ []) "a" ≡ "0000000000000000000000000002b5c4"
unfolding gravatar_hash text_length
gravatar_hash_test = refl

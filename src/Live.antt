-- ===== src/Live.antt =====
-- The page of live runs, Frontend/hawkeye-web/src/app/app/(workspace)/[projectId]/runs/live/page.tsx:
-- the log of a run, the status that its panel shows, and the list beside it. A line's message is the
-- fields that it is composed of; a time of day is the time itself.
pub mod Panel
pub mod Address
pub mod Labels
use project_hawkeye.Base.{
  ℕ, ◌/◌, ◌%◌, ◌-◌, String, Bool, true, false, List, [], ◌∷◌, Option, none, some, or_else, filter,
  length, count_by, if◌then◌else◌, ltb, is_some,
}
use project_hawkeye.Base.Strings.{includes, is_filled, ◌+++◌}
use project_hawkeye.Runs.{RunStatus, running, RunSummary, is_active, is_terminal}
use project_hawkeye.Hooks.TraceStream.{
  EventType, ping, current_state, run_started, step_start, observe, reason, act, error, complete,
  other, TraceEvent, TraceStreamState,
}
use project_hawkeye.Tables.Runs.{sort_latest}

pub data LogLevel : Type 0 where
  step_level observe_level reasoning_level action_level action_err_level error_level complete_level
        system_level :
      LogLevel

pub data LogMessage : Type 0 where
  started : LogMessage
  step_of : (number : Option ℕ) → LogMessage
  text : (content : String) → LogMessage
  tokens : (input output cost : ℕ) → LogMessage
  tool : (name : String) (ok : Bool) → LogMessage
  ended : (status : Option RunStatus) → LogMessage

pub record LogLine : Type 0 where
  pub ts : ℕ
  pub level : LogLevel
  pub tag : String
  pub message : LogMessage

-- The switch of `eventToLogLine`.
unfoldable pub log_line_of : EventType → TraceEvent → Option LogLine
log_line_of run_started e =
    some (record { ts = e.timestamp; level = system_level; tag = "RUN"; message = started })
log_line_of step_start e = some (record {
  ts = e.timestamp;
  level = step_level;
  tag = "STEP";
  message = step_of e.content.step_number;
})
log_line_of observe e = some (record {
  ts = e.timestamp;
  level = observe_level;
  tag = "OBS";
  message = text (or_else e.content.url "");
})
log_line_of reason e = some (record {
  ts = e.timestamp;
  level = reasoning_level;
  tag = "LLM";
  message =
      tokens (or_else e.content.input_tokens 0) (or_else e.content.output_tokens 0)
        (or_else e.content.cost_usd 0);
})
log_line_of act e =
    let ok = or_else e.content.success true in
    some (record {
      ts = e.timestamp;
      level = if ok then action_level else action_err_level;
      tag = "ACT";
      message = tool (or_else e.content.tool_name "?") ok;
    })
log_line_of error e = some (record {
  ts = e.timestamp;
  level = error_level;
  tag = "ERR";
  message = text (or_else e.content.message "");
})
log_line_of complete e = some (record {
  ts = e.timestamp;
  level = complete_level;
  tag = "DONE";
  message = ended e.content.status;
})
log_line_of _ e = none

unfoldable pub event_to_log_line : TraceEvent → Option LogLine
unfolding log_line_of
event_to_log_line e = log_line_of e.event_type e

abbrev pub prepend : Option LogLine → List LogLine → List LogLine
prepend none rest = rest
prepend (some l) rest = l ∷ rest

-- `events.flatMap(...)`
unfoldable pub log_lines : List TraceEvent → List LogLine
unfolding event_to_log_line
log_lines [] = []
log_lines (e ∷ events) = prepend (event_to_log_line e) (log_lines events)

abbrev pub is_step_start : EventType → Bool
is_step_start step_start = true
is_step_start _ = false

unfoldable pub step_count : List TraceEvent → ℕ
step_count events = count_by (λ e. is_step_start e.event_type) events

-- The status of the panel, of the run that was polled and the status of the socket.
unfoldable pub shown_status : Option RunStatus → Option RunStatus → Option RunStatus
shown_status none live = live
shown_status (some polled) none = some polled
shown_status (some polled) (some live) = if is_terminal polled then some polled else some live

unfoldable pub is_done : Option RunStatus → Bool
is_done none = false
is_done (some status) = is_terminal status

-- `novncUrl`
unfoldable pub novnc_url : Option String → Option String
novnc_url none = none
novnc_url (some raw) =
    if is_filled raw
    then some (raw +++ (if includes raw "?" then "&" else "?") +++ "resize=scale&autoconnect=1")
    else none

-- `formatElapsed`, of the time now and the time of the creation
pub data Elapsed : Type 0 where
  seconds : (count : ℕ) → Elapsed
  minutes : (count seconds : ℕ) → Elapsed

unfoldable pub format_elapsed : ℕ → ℕ → Elapsed
format_elapsed now created_at =
    let s = (now - created_at) / 1000 in (if ltb s 60 then seconds s else minutes (s / 60) (s % 60))

-- `activeRuns`, `completedCount`, and the run that the page selects by itself
unfoldable pub active_runs : Option (List RunSummary) → List RunSummary
active_runs none = []
active_runs (some runs) = sort_latest (filter (λ r. is_active r.status) runs)

abbrev pub not_active : RunSummary → Bool
not_active r = if is_active r.status then false else true

unfoldable pub completed_count : Option (List RunSummary) → ℕ
completed_count none = 0
completed_count (some runs) = count_by not_active runs

abbrev pub first_id : List RunSummary → Option String
first_id [] = none
first_id (r ∷ rest) = some r.run_id

unfoldable pub auto_select : Option String → Option (List RunSummary) → Option String
unfolding active_runs
auto_select selected runs = if is_some selected then selected else first_id (active_runs runs)

-- The address that `selectRun` goes to: its path, and the rest of it
unfoldable pub select_run : String → String × String
select_run id = ("/app/runs/live", "?id=" +++ id)

abbrev pub address : String × String → String
address (path, query) = path +++ query

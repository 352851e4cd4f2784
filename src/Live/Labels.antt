-- ===== src/Live/Labels.antt =====
-- How runs are named on the page of live runs: `StatusBadge`, `statusDotClass`, `formatDuration` and
-- `RunListItem` of runs/live/page.tsx.
use project_hawkeye.Base.{ℕ, String, Option, none, some, if◌then◌else◌, or_else}
use project_hawkeye.Base.Strings.{slice}
use project_hawkeye.Live.{is_active, Elapsed, format_elapsed}
use project_hawkeye.Runs.{
  RunStatus, RunSummary, queued, running, passed, failed, errored, timed_out, blocked, cancelled,
}
use project_hawkeye.Tables.Runs.{Duration, format_duration}

-- The labels of `StatusBadge`
unfoldable pub status_label : RunStatus → String
status_label queued = "Queued"
status_label running = "In progress"
status_label passed = "Passed"
status_label failed = "Failed"
status_label errored = "Errored"
status_label timed_out = "Timed out"
status_label blocked = "Blocked"
status_label cancelled = "Cancelled"

unfoldable pub status_dot_class : RunStatus → String
status_dot_class running = "bg-amber-400"
status_dot_class queued = "bg-amber-400"
status_dot_class passed = "bg-emerald-400"
status_dot_class failed = "bg-rose-400"
status_dot_class errored = "bg-rose-400"
status_dot_class timed_out = "bg-muted-foreground"
status_dot_class blocked = "bg-muted-foreground"
status_dot_class cancelled = "bg-muted-foreground"

-- `label` of `RunListItem`
unfoldable pub item_label : RunSummary → String
unfolding slice
item_label run = or_else run.test_name (slice 8 run.run_id)

-- `time` of `RunListItem`: the time since the start of an active run, or the duration of another one
pub data ItemTime : Type 0 where
  elapsed : Elapsed → ItemTime
  took : Duration → ItemTime
  unknown : ItemTime

abbrev pub took_of : Option ℕ → ItemTime
took_of none = unknown
took_of (some ms) = took (format_duration (some ms))

unfoldable pub item_time : (now : ℕ) → RunSummary → ItemTime
unfolding format_elapsed
item_time now run =
    if is_active run.status
    then elapsed (format_elapsed now run.created_at)
    else took_of run.duration_s

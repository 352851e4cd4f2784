-- ===== src/Live/Panel.antt =====
-- What the page of live runs shows of a run and of its events.
use project_hawkeye.Base.{
  ℕ, suc, ◌+◌, ◌*◌, ◌<◌, Bool, true, false, List, [], ◌∷◌, Option, none, some, length, filter,
  count_by, ◌≡◌, refl, arith, ◌||◌, if◌then◌else◌, ltb, Bool-cases, inl, inr, ◌∙◌, ap, or_else, ◌-◌,
  ◌/◌, ltb→lt,
}
use project_hawkeye.Runs.{RunStatus, RunSummary, is_active, is_terminal}
use project_hawkeye.Hooks.TraceStream.{
  EventType, run_started, step_start, observe, reason, act, error, complete, TraceEvent,
}
use project_hawkeye.Tables.Runs.{insert, sort_latest}
use project_hawkeye.Live.{
  LogLine, LogLevel, step_level, log_line_of, event_to_log_line, log_lines, is_step_start,
  step_count, shown_status, is_done, Elapsed, seconds, minutes, format_elapsed, active_runs,
  not_active, completed_count, prepend,
}

abbrev is_step_level : LogLevel → Bool
is_step_level step_level = true
is_step_level _ = false

abbrev pub is_step_line : LogLine → Bool
is_step_line l = is_step_level l.level

abbrev lines_of : Option LogLine → ℕ
lines_of none = 0
lines_of (some l) = if is_step_line l then 1 else 0

one_line :
    (t : EventType) (e : TraceEvent)
    → lines_of (log_line_of t e) ≡ (if is_step_start t then 1 else 0)
unfolding log_line_of
one_line run_started e = refl
one_line step_start e = refl
one_line observe e = refl
one_line reason e = refl
one_line act e = elim (Bool-cases (or_else e.content.success true)) [
  | inl ok ↦ rw ok refl
  | inr failed ↦ rw failed refl
]
one_line error e = refl
one_line complete e = refl
one_line _ e = refl

count_by-prepend :
    (o : Option LogLine) (rest : List LogLine)
    → count_by is_step_line (prepend o rest) ≡ lines_of o + count_by is_step_line rest
count_by-prepend none rest = omega arith
count_by-prepend (some l) rest = ground arith

-- The number of steps in the panel's header is the number of step lines in its log.
pub step_count-log_lines :
    (events : List TraceEvent) → step_count events ≡ count_by is_step_line (log_lines events)
unfolding step_count log_lines
step_count-log_lines [] = refl
step_count-log_lines (e ∷ events) =
    let more = count_by-prepend (event_to_log_line e) (log_lines events) in
    let one : lines_of (event_to_log_line e) ≡ (if is_step_start e.event_type then 1 else 0) =
      unfold event_to_log_line in one_line e.event_type e in
    ground (arith, more, one, step_count-log_lines events)

-- Whatever the socket says, the panel shows the polled run's own status once that is terminal, and
-- what the socket says before that; and it is done when either of the two statuses is terminal.
pub shown_status_lem :
    (polled live : RunStatus)
    → (shown_status (some polled) (some live) ≡ some (if is_terminal polled then polled else live))
      × (is_done (shown_status (some polled) (some live)) ≡ is_terminal polled || is_terminal live)
unfolding shown_status is_done
shown_status_lem polled live = elim (Bool-cases (is_terminal polled)) [
  | inl ended ↦ rw ended (refl, ended)
  | inr under_way ↦ rw under_way (refl, refl)
]

abbrev pub elapsed_seconds : Elapsed → ℕ
elapsed_seconds (seconds s) = s
elapsed_seconds (minutes m s) = 60 * m + s

abbrev pub seconds_beside : Elapsed → ℕ
seconds_beside (seconds s) = s
seconds_beside (minutes m s) = s

-- The elapsed time that is shown has less than sixty seconds beside its minutes, and together they
-- are the whole seconds since the creation.
pub format_elapsed_lem :
    (now created_at : ℕ)
    → (elapsed_seconds (format_elapsed now created_at) ≡ (now - created_at) / 1000)
      × (seconds_beside (format_elapsed now created_at) < 60)
unfolding format_elapsed
format_elapsed_lem now created_at = elim (Bool-cases (ltb ((now - created_at) / 1000) 60)) [
  | inl short ↦ rw short (refl, ltb→lt ((now - created_at) / 1000) 60 short)
  | inr long ↦ rw long (omega arith, omega arith)
]

count_active :
    (runs : List RunSummary)
    → count_by (λ r. is_active r.status) runs + count_by not_active runs ≡ length runs
count_active [] = omega arith
count_active (r ∷ runs) = ground (arith, count_active runs)

length-insert : (r : RunSummary) (xs : List RunSummary) → length (insert r xs) ≡ suc (length xs)
length-insert r [] = refl
length-insert r (x ∷ xs) = ground (arith, length-insert r xs)

length-sort_latest : (runs : List RunSummary) → length (sort_latest runs) ≡ length runs
length-sort_latest [] = refl
length-sort_latest (r ∷ runs) =
    length-insert r (sort_latest runs) ∙ ap suc (length-sort_latest runs)

-- The runs that the page lists as active and those that it counts as completed are all the runs.
pub active_runs-completed_count :
    (runs : List RunSummary)
    → length (active_runs (some runs)) + completed_count (some runs) ≡ length runs
unfolding active_runs completed_count
active_runs-completed_count runs =
    let sorted = length-sort_latest (filter (λ r. is_active r.status) runs) in
    omega (arith, sorted, count_active runs)

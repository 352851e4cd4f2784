-- ===== src/Notifications/Feeder.antt =====
-- Frontend/hawkeye-web/src/lib/notifications/feeder.ts: the effect of `useNotificationFeeder`, which
-- runs whenever the polled list of runs changes. `notifiedRef` lives as long as the component.
pub mod Once
pub mod Lost
use project_hawkeye.Base.{
  String, Bool, true, false, not, ◌&&◌, List, [], ◌∷◌, ◌++◌, Option, none, some, if◌then◌else◌,
  or_else,
}
use project_hawkeye.Base.Strings.{slice, is_filled, contains, ◌+++◌}
use project_hawkeye.Runs.{
  RunStatus, queued, running, passed, failed, errored, timed_out, blocked, cancelled, RunSummary,
  is_terminal,
}
use project_hawkeye.Notifications.Store.{
  NotifLevel, success, error, warning, AlertPrefs, Draft, Stamp, NotificationState, add,
  get_alert_prefs,
}

pub record Feeder : Type 0 where
  pub notified : List String
  pub store : NotificationState

unfoldable pub run_name : RunSummary → String
unfolding slice
run_name run = or_else run.test_name (slice 8 run.run_id)

abbrev pub draft : NotifLevel → String → Option String → String → RunSummary → Draft
draft level title body project run = record {
  level = level;
  title = title +++ run_name run;
  body = body;
  href = some ("/app/" +++ project +++ "/artifacts/" +++ run.run_id);
  project_id = some project;
  run_id = some run.run_id;
}

abbrev pub given : Bool → Draft → Option Draft
given wanted d = if wanted then some d else none

-- The ladder of tests on the status and the preferences; `none` where no branch adds anything.
unfoldable pub draft_at : RunStatus → AlertPrefs → String → RunSummary → Option Draft
unfolding run_name
draft_at failed prefs project run =
    given prefs.on_failure (draft error "Run failed: " run.termination_reason project run)
draft_at errored prefs project run =
    given prefs.on_failure (draft error "Run failed: " run.termination_reason project run)
draft_at timed_out prefs project run =
    given prefs.on_failure (draft warning "Run timed out: " none project run)
draft_at blocked prefs project run =
    given prefs.on_failure (draft warning "Run blocked: " run.termination_reason project run)
draft_at passed prefs project run =
    given prefs.on_success (draft success "Run passed: " none project run)
draft_at cancelled prefs project run = none
draft_at queued prefs project run = none
draft_at running prefs project run = none

abbrev pub draft_for : AlertPrefs → String → RunSummary → Option Draft
draft_for prefs project run = draft_at run.status prefs project run

-- The body of `runs.forEach`. `stamps` gives what the clock and the random source give to `add`.
module _ (prefs : AlertPrefs) (project : String) (stamps : RunSummary → Stamp) where
  unfoldable pub feed_run : RunSummary → Feeder → Feeder
  feed_run run f =
      if not (is_terminal run.status)
      then f
      else if contains run.run_id f.notified
      then f
      else record {
        notified = f.notified ++ run.run_id ∷ [];
        store = elim (draft_for prefs project run) [
          | none ↦ f.store
          | some d ↦ add d (stamps run) f.store
        ];
      }

  unfoldable pub feed : List RunSummary → Feeder → Feeder
  feed [] f = f
  feed (run ∷ runs) f = feed runs (feed_run run f)

-- The effect: it needs the runs and a project, and reads the preferences once.
unfoldable pub effect :
    Option (List RunSummary) → Option String → (RunSummary → Stamp) → Feeder → Feeder
effect none project stamps f = f
effect (some runs) none stamps f = f
effect (some runs) (some project) stamps f =
    if is_filled project then feed (get_alert_prefs project f.store) project stamps runs f else f

-- ===== src/Tests/Hooks.antt =====
-- The hooks on a project "a" and a project "b".
use project_hawkeye.Base.{
  ◌≤◌, true, List, [], ◌∷◌, not, ◌&&◌, ◌||◌, any, filter, length, none, some, if◌then◌else◌, ◌==◌,
  str_eq, ◌≡◌, refl, arith,
}
use project_hawkeye.Base.Dict
use project_hawkeye.Base.Strings.{includes}
use project_hawkeye.Base.Strings
use project_hawkeye.Runs.{running, passed, RunSummary}
use project_hawkeye.Hooks.ProjectRuns
use project_hawkeye.Hooks.ProjectRuns.{World, start, show, fail}
use project_hawkeye.Hooks.ProjectRuns.Dedup.{ids_for, pending_ids, run-IsDeduped}
use project_hawkeye.Hooks.ProjectRuns.Late.{views-answer_late}
use project_hawkeye.Hooks.ProjectRuns.Freshness.{views-answer, views-reject, tick-answer}
use project_hawkeye.Hooks.RunList
use project_hawkeye.Hooks.RunList.Keys.{shown_ids, record_of, run-update}
use project_hawkeye.Hooks.RunList.Closed.{is_fetch, run-disconnect}
use project_hawkeye.Hooks.Polling
use project_hawkeye.Hooks.Polling.{init_state, ends, interval-run}
use project_hawkeye.Hooks.TraceStream
use project_hawkeye.Hooks.TraceStream.{opening, TraceEvent, EventType, EventData}
use project_hawkeye.Hooks.TraceStream.Messages.{logged, last_told, run_lem}
use project_hawkeye.Tests.Data.{run_at}

abbrev r1 : RunSummary
r1 = run_at "r1" running 5

abbrev r1_passed : RunSummary
r1_passed = run_at "r1" passed 5

-- An instance is given "a", then "b", and another instance is given "a".
abbrev moved : List ProjectRuns.Event
moved =
    ProjectRuns.changed 0 (some "a") 0
    ∷ ProjectRuns.changed 0 (some "b") 1
    ∷ ProjectRuns.changed 1 (some "a") 2
    ∷ []

abbrev moved_world : World
moved_world = ProjectRuns.run moved start

run-IsDeduped_example :
    (ids_for "a" (ProjectRuns.run moved start).flights
      ≡ pending_ids (Dict.lookup "a" (ProjectRuns.run moved start).cache))
    × (length (ids_for "a" (ProjectRuns.run moved start).flights) ≤ 1)
run-IsDeduped_example = run-IsDeduped moved "a"

abbrev flight_a : ProjectRuns.Flight
flight_a = record { id = 0; project = "a"; owner = 0 }

-- The answer for "a" is shown by an instance that is at "b" by now.
views-answer_test :
    (ProjectRuns.step (ProjectRuns.answer 0 "a" (r1 ∷ []) 3) moved_world).views 0 ≡ (
      if flight_a.owner == 0 || any (λ s. s.id == 0 && s.view == 0) moved_world.shares
      then show (r1 ∷ []) (moved_world.views 0)
      else moved_world.views 0)
unfolding ProjectRuns.run ProjectRuns.step Dict.lookup Dict.set
views-answer_test = views-answer moved_world 0 "a" {f = flight_a} refl (r1 ∷ []) 3 0

-- Between the request for "a" and its answer, the instance moves to "b".
abbrev to_b : List ProjectRuns.Event
to_b = ProjectRuns.changed 0 (some "b") 1 ∷ ProjectRuns.changed 1 (some "a") 2 ∷ []

views-answer_late_example :
    let moved : World =
      ProjectRuns.run to_b (ProjectRuns.step (ProjectRuns.changed 0 (some "a") 0) start) in
    let after : World = ProjectRuns.step (ProjectRuns.answer 0 "a" (r1 ∷ []) 3) moved in
    (after.views 0 ≡ show (r1 ∷ []) (moved.views 0))
    × (Dict.lookup "a" after.cache ≡ some (record { runs = r1 ∷ []; ts = 3; pending = none }))
views-answer_late_example =
    views-answer_late start 0 "a" 0 to_b (r1 ∷ []) 3 refl (unfold Dict.lookup in refl) refl

views-reject_test : (ProjectRuns.step (ProjectRuns.reject 0 "a" "down") moved_world).views 1 ≡ (
    if flight_a.owner == 1 && not (includes "down" "Unauthorized")
    then fail "down" (moved_world.views 1)
    else moved_world.views 1)
unfolding ProjectRuns.run ProjectRuns.step Dict.lookup Dict.set
views-reject_test = views-reject moved_world 0 "a" {f = flight_a} refl "down" 1

tick-answer_test :
    ((ProjectRuns.step
        (ProjectRuns.tick 1 2000)
        (ProjectRuns.step (ProjectRuns.answer 0 "a" (r1 ∷ []) 3) moved_world)).flights
      ≡ (ProjectRuns.step (ProjectRuns.answer 0 "a" (r1 ∷ []) 3) moved_world).flights)
    × ((ProjectRuns.step
            (ProjectRuns.tick 1 2000)
            (ProjectRuns.step (ProjectRuns.answer 0 "a" (r1 ∷ []) 3) moved_world)).views
          1
        ≡ show (r1 ∷ []) (moved_world.views 1))
unfolding ProjectRuns.run ProjectRuns.step Dict.lookup Dict.set
tick-answer_test =
    tick-answer moved_world 0 "a" {f = flight_a} refl (r1 ∷ []) 3 2000 1 refl refl (omega arith)

run-update_example :
    Strings.Distinct (
      shown_ids (
        RunList.step
          (RunList.update r1_passed)
          (RunList.run (RunList.fetch (r1 ∷ []) ∷ []) RunList.initial)))
    × (record_of "r1" (
          RunList.step
            (RunList.update r1_passed)
            (RunList.run (RunList.fetch (r1 ∷ []) ∷ []) RunList.initial))
        ≡ (if str_eq "r1" "r1"
            then some r1_passed
            else record_of "r1" (RunList.run (RunList.fetch (r1 ∷ []) ∷ []) RunList.initial)))
unfolding RunList.run RunList.step
run-update_example = run-update (RunList.fetch (r1 ∷ []) ∷ []) r1_passed "r1" refl

run-disconnect_test :
    RunList.run (RunList.disconnect ∷ RunList.update r1 ∷ RunList.fetch [] ∷ []) RunList.initial
    ≡ RunList.run
        (RunList.disconnect ∷ filter is_fetch (RunList.update r1 ∷ RunList.fetch [] ∷ []))
        RunList.initial
run-disconnect_test = run-disconnect (RunList.update r1 ∷ RunList.fetch [] ∷ []) RunList.initial

abbrev polling : Polling.Poll
polling = record { id = some "r1"; state = init_state; interval = true }

abbrev polled : List Polling.Event
polled = Polling.answer r1 ∷ Polling.failure "down" ∷ Polling.answer r1_passed ∷ []

interval-run_example :
    (Polling.run polled polling).interval ≡ polling.interval && not (any ends polled)
interval-run_example = interval-run polled polling refl

abbrev event_of : EventType → TraceEvent
event_of t = record {
  event_type = t;
  run_id = "r1";
  step_number = none;
  content = record {
    status = some passed;
    step_number = some 1;
    url = none;
    input_tokens = none;
    output_tokens = none;
    cost_usd = none;
    tool_name = none;
    success = none;
    message = none;
  };
  timestamp = 7;
}

abbrev socket : List TraceStream.SocketEvent
socket =
    TraceStream.opened
    ∷ TraceStream.message (event_of TraceStream.ping)
    ∷ TraceStream.message (event_of TraceStream.complete)
    ∷ []

run_lem_example :
    ((TraceStream.run socket opening).events ≡ logged socket)
    × ((TraceStream.run socket opening).live_status ≡ last_told none socket)
run_lem_example = run_lem socket

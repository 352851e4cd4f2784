-- ===== src/Hooks/RunList.antt =====
-- `useRuns` of lib/api/hooks.ts: the list of all runs, kept by server-sent events, with a fetch as
-- the fall-back. `runsMapRef` is a JavaScript `Map`.
pub mod Keys
pub mod Closed
use project_hawkeye.Base.{
  String, Bool, true, false, not, ◌&&◌, ◌||◌, List, [], ◌∷◌, ◌++◌, map, Option, none, some, find,
  if◌then◌else◌, or_else, str_eq, eq_iff, ◌≡◌, refl, sym, ap, ◌∙◌, arith, Bool-cases, inl, inr,
}
use project_hawkeye.Base.Dict
use project_hawkeye.Base.Dict.{Dict}
use project_hawkeye.Base.Strings.{contains, contains-append}
use project_hawkeye.Base.Strings
use project_hawkeye.Runs.{RunSummary}

-- `ApiState<RunSummary[]>`
pub record ListState : Type 0 where
  pub runs : Option (List RunSummary)
  pub loading : Bool
  pub error : Option String

-- The hook: its state, its map, and whether its `EventSource` is open.
pub record Stream : Type 0 where
  pub state : ListState
  pub by_id : Dict RunSummary
  pub open_source : Bool

abbrev pub initial : Stream
initial = record {
  state = record { runs = none; loading = true; error = none };
  by_id = [];
  open_source = true;
}

-- `new Map(runs.map((r) => [r.run_id, r]))`
unfoldable pub map_of : List RunSummary → Dict RunSummary → Dict RunSummary
map_of [] m = m
map_of (r ∷ rest) m = map_of rest (Dict.set r.run_id r m)

-- `runs.filter((r) => !seen.has(r.run_id) && seen.add(r.run_id))`
unfoldable pub unique : List String → List RunSummary → List RunSummary
unique seen [] = []
unique seen (r ∷ rest) =
    if contains r.run_id seen then unique seen rest else r ∷ unique (seen ++ r.run_id ∷ []) rest

abbrev pub shown : List RunSummary → ListState
shown runs = record { runs = some runs; loading = false; error = none }

-- The answer of `refetch`, and its failure.
unfoldable pub fetched : List RunSummary → Stream → Stream
unfolding unique map_of
fetched runs s = let u = unique [] runs in record s { state = shown u; by_id = map_of u [] }

unfoldable pub fetch_failed : String → Stream → Stream
fetch_failed text s = record s {
  state = record { runs = s.state.runs; loading = false; error = some text };
}

-- The listeners of the `EventSource`: nothing comes in once it is closed.
unfoldable pub snapshot : List RunSummary → Stream → Stream
unfolding map_of
snapshot runs s =
    if s.open_source then record s { state = shown runs; by_id = map_of runs [] } else s

unfoldable pub run_update : RunSummary → Stream → Stream
run_update run s =
    if s.open_source
    then record s {
      state = shown (Dict.values (Dict.set run.run_id run s.by_id));
      by_id = Dict.set run.run_id run s.by_id;
    }
    else s

-- `onerror`: it clears the error, closes the source (and starts a `refetch`). The timer that it sets
-- only writes `esRef`, which nothing reads.
unfoldable pub disconnected : Stream → Stream
disconnected s =
    if s.open_source
    then record s {
      state = record { runs = s.state.runs; loading = s.state.loading; error = none };
      open_source = false;
    }
    else s

pub data Event : Type 0 where
  fetch : List RunSummary → Event
  fetch_error : String → Event
  snap : List RunSummary → Event
  update : RunSummary → Event
  disconnect : Event

unfoldable pub step : Event → Stream → Stream
unfolding fetched fetch_failed snapshot run_update disconnected
step (fetch runs) s = fetched runs s
step (fetch_error text) s = fetch_failed text s
step (snap runs) s = snapshot runs s
step (update r) s = run_update r s
step disconnect s = disconnected s

unfoldable pub run : List Event → Stream → Stream
run [] s = s
run (e ∷ rest) s = run rest (step e s)

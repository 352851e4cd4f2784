-- ===== src/Hooks/ProjectRuns.antt =====
-- `useProjectRuns` of lib/api/hooks.ts: the cache of the module, shared by all mounted instances of
-- the hook, as a transition system. A `refetch` runs up to its `await` in one step; the answer of
-- the server is another, and runs the continuations of the request's promise.
pub mod Dedup
pub mod Freshness
pub mod Late
use project_hawkeye.Base.{
  ℕ, ◌+◌, ◌-◌, String, Bool, true, false, not, ◌&&◌, List, [], ◌∷◌, ◌++◌, Option, none, some,
  if◌then◌else◌, ltb, ◌==◌, filter, find, any, str_eq,
}
use project_hawkeye.Base.Dict
use project_hawkeye.Base.Dict.{Dict}
use project_hawkeye.Base.Strings.{includes}
use project_hawkeye.Runs.{RunSummary}

-- An entry of `_runsCache`; a promise is named by the number of its request.
pub record Entry : Type 0 where
  pub runs : List RunSummary
  pub ts : ℕ
  pub pending : Option ℕ

-- An instance of the hook: its argument and its `ApiState`.
pub record View : Type 0 where
  pub project : Option String
  pub runs : Option (List RunSummary)
  pub loading : Bool
  pub error : Option String

-- A request under way, with the instance whose `refetch` awaits it.
pub record Flight : Type 0 where
  pub id : ℕ
  pub project : String
  pub owner : ℕ

-- An instance that attached itself to the promise of a request.
pub record Share : Type 0 where
  pub id : ℕ
  pub view : ℕ

pub record World : Type 0 where
  pub cache : Dict Entry
  pub flights : List Flight
  pub shares : List Share
  pub next_id : ℕ
  pub views : ℕ → View

-- `_RUNS_CACHE_TTL_MS`
abbrev pub ttl : ℕ
ttl = 4000

-- `initState`, for an instance that is given a project.
abbrev pub init_view : Option String → View
init_view project = record { project = project; runs = none; loading = true; error = none }

abbrev pub start : World
start = record { cache = []; flights = []; shares = []; next_id = 0; views = λ i. init_view none }

-- `setState({ data, loading: false, error: null })`
abbrev pub show : List RunSummary → View → View
show runs v = record v { runs = some runs; loading = false; error = none }

-- `setState((prev) => ({ ...prev, loading: false, error }))`
abbrev pub fail : String → View → View
fail text v = record v { loading = false; error = some text }

abbrev pub update_view : ℕ → (View → View) → (ℕ → View) → ℕ → View
update_view i f views j = if i == j then f (views j) else views j

-- The request that `refetch` sends when it neither shares nor reuses one.
abbrev pub cached_runs : Option Entry → List RunSummary
cached_runs none = []
cached_runs (some e) = e.runs

unfoldable pub send : ℕ → String → ℕ → World → World
send i p now w = record w {
  cache =
      Dict.set p
        (record { runs = cached_runs (Dict.lookup p w.cache); ts = now; pending = some w.next_id })
        w.cache;
  flights = record { id = w.next_id; project = p; owner = i } ∷ w.flights;
  next_id = w.next_id + 1;
}

-- `refetch` by what the cache holds for the project. `now - ts` stops at 0 here, where the program's
-- difference may fall below it: both are then below the limit.
unfoldable pub refetch_from : Option Entry → ℕ → String → ℕ → World → World
unfolding send
refetch_from none i p now w = send i p now w
refetch_from (some e) i p now w = elim e.pending [
  | some id ↦ record w { shares = record { id = id; view = i } ∷ w.shares }
  | none ↦
      if ltb (now - e.ts) ttl
      then record w { views = update_view i (show e.runs) w.views }
      else send i p now w
]

unfoldable pub refetch_of : Option String → ℕ → ℕ → World → World
unfolding refetch_from
refetch_of none i now w = record w { views = update_view i (show []) w.views }
refetch_of (some p) i now w =
    if str_eq p ""
    then record w { views = update_view i (show []) w.views }
    else refetch_from (Dict.lookup p w.cache) i p now w

unfoldable pub refetch : ℕ → ℕ → World → World
unfolding refetch_of
refetch i now w = refetch_of (w.views i).project i now w

-- The effect of a new project: `setState(initState); refetch()`.
unfoldable pub change : ℕ → Option String → ℕ → World → World
unfolding refetch
change i project now w =
    refetch i now (record w { views = update_view i (λ v. init_view project) w.views })

abbrev pub is_flight : ℕ → String → Flight → Bool
is_flight id p f = f.id == id && str_eq f.project p

abbrev pub landed : ℕ → String → World → World
landed id p w = record w {
  flights = filter (λ f. not (is_flight id p f)) w.flights;
  shares = filter (λ s. not (s.id == id)) w.shares;
}

-- Every instance that shares the request, and its owner, show the runs.
abbrev pub show_all : ℕ → List RunSummary → List Share → (ℕ → View) → ℕ → View
show_all id runs shares views j =
    if any (λ s. s.id == id && s.view == j) shares then show runs (views j) else views j

-- The request ends with runs.
unfoldable pub answered_by : Option Flight → ℕ → String → List RunSummary → ℕ → World → World
answered_by none id p runs now w = w
answered_by (some f) id p runs now w = record (landed id p w) {
  cache = Dict.set p (record { runs = runs; ts = now; pending = none }) w.cache;
  views = update_view f.owner (show runs) (show_all id runs w.shares w.views);
}

unfoldable pub answered : ℕ → String → List RunSummary → ℕ → World → World
unfolding answered_by
answered id p runs now w = answered_by (find (is_flight id p) w.flights) id p runs now w

-- The request ends with an exception, whose text is `String(e)`.
unfoldable pub rejected_by : Option Flight → ℕ → String → String → World → World
unfolding includes
rejected_by none id p text w = w
rejected_by (some f) id p text w = record (landed id p w) {
  cache = Dict.delete p w.cache;
  views = if includes text "Unauthorized" then w.views else update_view f.owner (fail text) w.views;
}

unfoldable pub rejected : ℕ → String → String → World → World
unfolding rejected_by
rejected id p text w = rejected_by (find (is_flight id p) w.flights) id p text w

-- What can happen: an instance is given a project, its timer fires, a request ends.
pub data Event : Type 0 where
  changed : (view : ℕ) → Option String → (now : ℕ) → Event
  tick : (view now : ℕ) → Event
  answer : (id : ℕ) → String → List RunSummary → (now : ℕ) → Event
  reject : (id : ℕ) → String → String → Event

unfoldable pub step : Event → World → World
unfolding change refetch answered rejected
step (changed i project now) w = change i project now w
step (tick i now) w = refetch i now w
step (answer id p runs now) w = answered id p runs now w
step (reject id p text) w = rejected id p text w

unfoldable pub run : List Event → World → World
run [] w = w
run (e ∷ rest) w = run rest (step e w)

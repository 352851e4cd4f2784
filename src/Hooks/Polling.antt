-- ===== src/Hooks/Polling.antt =====
-- `useRun`, `useRunTraces` and `useTestCases` of lib/api/hooks.ts: the polling of one run, and the
-- hooks that fetch once. A `fetch` is cut at its `await`.
use project_hawkeye.Base.{
  String, Bool, true, false, not, ◌&&◌, List, [], ◌∷◌, Option, none, some, any, if◌then◌else◌, ◌≡◌,
  arith,
}
use project_hawkeye.Base.Strings.{is_filled}
use project_hawkeye.Runs.{RunSummary, is_terminal}

-- `ApiState<T>`
pub record ApiState {ℓ} (T : Type ℓ) : Type ℓ where
  pub content : Option T
  pub loading : Bool
  pub error : Option String

abbrev pub init_state {ℓ} : {T : Type ℓ} → ApiState T
init_state = record { content = none; loading = true; error = none }

-- The end of a hook that fetches once: `.then` shows what came, `.catch` the error alone.
pub data Answer {ℓ} (T : Type ℓ) : Type ℓ where
  came : T → Answer T
  threw : String → Answer T

pub fetched_once {ℓ} : {T : Type ℓ} → Answer T → ApiState T
fetched_once (came v) = record { content = some v; loading = false; error = none }
fetched_once (threw text) = record { content = none; loading = false; error = some text }

-- The hook `useRun`: its argument, its state and whether its interval is set.
pub record Poll : Type 0 where
  pub id : Option String
  pub state : ApiState RunSummary
  pub interval : Bool

pub data Event : Type 0 where
  changed : Option String → Event
  answer : RunSummary → Event
  failure : String → Event

abbrev has_id : Option String → Bool
has_id none = false
has_id (some id) = is_filled id

-- The effect of a new argument. The clean-up of the old one clears its interval; without an
-- identifier the effect then returns, and the state stays.
pub change : Option String → Poll → Poll
change id s =
    if has_id id
    then record { id = id; state = init_state; interval = true }
    else record s { id = id; interval = false }

-- The part of `fetch` behind its `await`: a terminal run clears the interval.
pub answered : RunSummary → Poll → Poll
answered run s = record s {
  state = record { content = some run; loading = false; error = none };
  interval = s.interval && not (is_terminal run.status);
}

pub failed_with : String → Poll → Poll
failed_with text s = record s {
  state = record { content = s.state.content; loading = false; error = some text };
}

pub step : Event → Poll → Poll
unfolding change answered failed_with
step (changed id) s = change id s
step (answer run) s = answered run s
step (failure text) s = failed_with text s

pub run : List Event → Poll → Poll
run [] s = s
run (e ∷ rest) s = run rest (step e s)

-- The events of a time in which the argument stays the same.
abbrev pub is_change : Event → Bool
is_change (changed id) = true
is_change _ = false

abbrev pub ends : Event → Bool
ends (answer run) = is_terminal run.status
ends _ = false

-- While the identifier stays the same, the hook goes on polling until a terminal run has come, and
-- stops then; failures do not stop it.
pub interval-run :
    (es : List Event) (s : Poll)
    → any is_change es ≡ false
    → (run es s).interval ≡ s.interval && not (any ends es)
unfolding run step
interval-run [] s h = ground arith
interval-run (changed id ∷ rest) s h = cc
interval-run (answer r ∷ rest) s h = ground (arith, interval-run rest (answered r s))
interval-run (failure text ∷ rest) s h = ground (arith, interval-run rest (failed_with text s))

-- ===== src/Hooks/TraceStream.antt =====
-- `useRunTraceStream` of lib/api/hooks.ts: the events of one run over a web socket.
pub mod Messages
use project_hawkeye.Base.{
  ℕ, String, Bool, true, false, List, [], ◌∷◌, ◌++◌, Option, none, some, if◌then◌else◌,
}
use project_hawkeye.Runs.{RunStatus, running}

-- `event_type`, with the values that the program tests for.
pub data EventType : Type 0 where
  ping current_state run_started step_start observe reason act error complete : EventType
  other : String → EventType

-- The fields of `event.data` that the program reads; one that is absent or empty is `none`. A cost
-- is in units of $0.0001.
pub record EventData : Type 0 where
  pub status : Option RunStatus
  pub step_number : Option ℕ
  pub url : Option String
  pub input_tokens : Option ℕ
  pub output_tokens : Option ℕ
  pub cost_usd : Option ℕ
  pub tool_name : Option String
  pub success : Option Bool
  pub message : Option String

pub record TraceEvent : Type 0 where
  pub event_type : EventType
  pub run_id : String
  pub step_number : Option ℕ
  pub content : EventData
  pub timestamp : ℕ

pub record TraceStreamState : Type 0 where
  pub events : List TraceEvent
  pub live_status : Option RunStatus
  pub connected : Bool
  pub active : Bool

-- The state after the effect has opened a socket.
abbrev pub opening : TraceStreamState
opening = record { events = []; live_status = none; connected = false; active = true }

-- `if (s) setLiveStatus(s)`
abbrev pub set_if : Option RunStatus → TraceStreamState → TraceStreamState
set_if none s = s
set_if (some status) s = record s { live_status = some status }

abbrev pub log_event : TraceEvent → TraceStreamState → TraceStreamState
log_event e s = record s { events = s.events ++ e ∷ [] }

-- `ws.onmessage` of an active effect, by the type of the event.
unfoldable pub on_message_of : EventType → TraceEvent → TraceStreamState → TraceStreamState
on_message_of ping e s = s
on_message_of current_state e s = set_if e.content.status s
on_message_of run_started e s = log_event e (record s { live_status = some running })
on_message_of complete e s = log_event e (set_if e.content.status s)
on_message_of _ e s = log_event e s

unfoldable pub on_message : TraceEvent → TraceStreamState → TraceStreamState
unfolding on_message_of
on_message e s = if s.active then on_message_of e.event_type e s else s

unfoldable pub on_open : TraceStreamState → TraceStreamState
on_open s = if s.active then record s { connected = true } else s

unfoldable pub on_close : TraceStreamState → TraceStreamState
on_close s = if s.active then record s { connected = false } else s

-- The clean-up of the effect.
unfoldable pub unmount : TraceStreamState → TraceStreamState
unmount s = record s { active = false }

pub data SocketEvent : Type 0 where
  opened closed cleaned_up : SocketEvent
  message : TraceEvent → SocketEvent

unfoldable pub step : SocketEvent → TraceStreamState → TraceStreamState
unfolding on_message on_open on_close unmount
step opened s = on_open s
step closed s = on_close s
step cleaned_up s = unmount s
step (message e) s = on_message e s

unfoldable pub run : List SocketEvent → TraceStreamState → TraceStreamState
run [] s = s
run (e ∷ rest) s = run rest (step e s)

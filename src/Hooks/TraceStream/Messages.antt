-- ===== src/Hooks/TraceStream/Messages.antt =====
-- The log and the status that a stream of messages leaves.
use project_hawkeye.Base.{
  Bool, true, false, List, [], ◌∷◌, ◌++◌, Option, none, some, if◌then◌else◌, ◌≡◌, refl, ap, ◌∙◌,
  sym, arith,
}
use mathlib.Core.List.{append_assoc, append-nil}
use project_hawkeye.Runs.{RunStatus, running}
use project_hawkeye.Hooks.TraceStream.{
  EventType, ping, current_state, run_started, complete, TraceEvent, TraceStreamState, opening,
  on_message, on_message_of, SocketEvent, opened, closed, cleaned_up, message, set_if, step, run,
  on_open, on_close, unmount,
}

-- The types of messages that are not logged.
abbrev pub is_quiet : EventType → Bool
is_quiet ping = true
is_quiet current_state = true
is_quiet _ = false

abbrev pub logged_one : TraceEvent → List TraceEvent
logged_one e = if is_quiet e.event_type then [] else e ∷ []

-- What a history of the socket should have logged: the messages up to the clean-up, but the quiet.
abbrev pub logged : List SocketEvent → List TraceEvent
logged [] = []
logged (opened ∷ rest) = logged rest
logged (closed ∷ rest) = logged rest
logged (cleaned_up ∷ rest) = []
logged (message e ∷ rest) = logged_one e ++ logged rest

-- The status that a message tells, if any.
abbrev pub tells : EventType → TraceEvent → Option RunStatus
tells current_state e = e.content.status
tells run_started e = some running
tells complete e = e.content.status
tells _ e = none

abbrev pub later : Option RunStatus → Option RunStatus → Option RunStatus
later none before = before
later (some s) before = some s

-- The last status that was told before the clean-up.
abbrev pub last_told : Option RunStatus → List SocketEvent → Option RunStatus
last_told before [] = before
last_told before (opened ∷ rest) = last_told before rest
last_told before (closed ∷ rest) = last_told before rest
last_told before (cleaned_up ∷ rest) = before
last_told before (message e ∷ rest) = last_told (later (tells e.event_type e) before) rest

set_if_lem :
    (o : Option RunStatus) (s : TraceStreamState)
    → ((set_if o s).events ≡ s.events)
      × ((set_if o s).live_status ≡ later o s.live_status)
      × ((set_if o s).active ≡ s.active)
set_if_lem none s = (refl, refl, refl)
set_if_lem (some status) s = (refl, refl, refl)

on_message_of_lem :
    (t : EventType) (e : TraceEvent) (s : TraceStreamState)
    → ((on_message_of t e s).events ≡ s.events ++ (if is_quiet t then [] else e ∷ []))
      × ((on_message_of t e s).live_status ≡ later (tells t e) s.live_status)
      × ((on_message_of t e s).active ≡ s.active)
unfolding on_message_of
on_message_of_lem ping e s = (sym (append-nil s.events), refl, refl)
on_message_of_lem current_state e s =
    let l = set_if_lem e.content.status s in (l.0 ∙ sym (append-nil s.events), l.1, l.2)
on_message_of_lem complete e s =
    let l = set_if_lem e.content.status s in (ap (λ es. es ++ e ∷ []) l.0, l.1, l.2)
on_message_of_lem run_started e s = (refl, refl, refl)
on_message_of_lem _ e s = (refl, refl, refl)

step_of_inactive : (e : SocketEvent) (s : TraceStreamState) → s.active ≡ false → step e s ≡ s
unfolding step on_message on_open on_close unmount
step_of_inactive opened s h = ground arith
step_of_inactive _ s h = ground arith

-- Once the effect is cleaned up, nothing changes the state.
run_of_inactive : (es : List SocketEvent) (s : TraceStreamState) → s.active ≡ false → run es s ≡ s
unfolding run
run_of_inactive [] s h = refl
run_of_inactive (e ∷ rest) s h =
    let same = step_of_inactive e s h in ap (run rest) same ∙ run_of_inactive rest s h

on_message_of_active :
    (e : TraceEvent) (s : TraceStreamState)
    → s.active ≡ true
    → ((on_message e s).events ≡ s.events ++ logged_one e)
      × ((on_message e s).live_status ≡ later (tells e.event_type e) s.live_status)
      × ((on_message e s).active ≡ true)
unfolding on_message
on_message_of_active e s h =
    let l = on_message_of_lem e.event_type e s in ground (arith, l.0, l.1, l.2)

abbrev Keeps : TraceStreamState → TraceStreamState → Type 0
Keeps s t = (t.events ≡ s.events) × (t.live_status ≡ s.live_status) × (t.active ≡ true)

on_open-Keeps : (s : TraceStreamState) → s.active ≡ true → Keeps s (on_open s)
unfolding on_open
on_open-Keeps s h = ground arith

on_close-Keeps : (s : TraceStreamState) → s.active ≡ true → Keeps s (on_close s)
unfolding on_close
on_close-Keeps s h = ground arith

run_from :
    (es : List SocketEvent) (s : TraceStreamState)
    → s.active ≡ true
    → ((run es s).events ≡ s.events ++ logged es)
      × ((run es s).live_status ≡ last_told s.live_status es)
unfolding run step unmount
run_from [] s h = (sym (append-nil s.events), refl)
run_from (opened ∷ rest) s h =
    let k = on_open-Keeps s h in
    let (log, status) = run_from rest (on_open s) k.2 in
    (log ∙ ap (λ es. es ++ logged rest) k.0, status ∙ ap (λ o. last_told o rest) k.1)
run_from (closed ∷ rest) s h =
    let k = on_close-Keeps s h in
    let (log, status) = run_from rest (on_close s) k.2 in
    (log ∙ ap (λ es. es ++ logged rest) k.0, status ∙ ap (λ o. last_told o rest) k.1)
run_from (cleaned_up ∷ rest) s h =
    let stays = run_of_inactive rest (unmount s) refl in
    (
      ap (λ (t : TraceStreamState). t.events) stays ∙ sym (append-nil s.events),
      ap (λ (t : TraceStreamState). t.live_status) stays,
    )
run_from (message e ∷ rest) s h =
    let m = on_message_of_active e s h in
    let (log, status) = run_from rest (on_message e s) m.2 in
    (
      log ∙ ap (λ es. es ++ logged rest) m.0 ∙ append_assoc s.events (logged_one e) (logged rest),
      status ∙ ap (λ o. last_told o rest) m.1,
    )

-- Whatever comes over the socket, the hook's events are the messages up to the clean-up in their
-- order, without pings and state reports, and its status is the last one told.
pub run_lem :
    (es : List SocketEvent)
    → ((run es opening).events ≡ logged es) × ((run es opening).live_status ≡ last_told none es)
run_lem es = run_from es opening refl

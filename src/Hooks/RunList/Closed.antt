-- ===== src/Hooks/RunList/Closed.antt =====
-- The disconnection of `useRuns`.
use project_hawkeye.Base.{Bool, true, false, List, [], ◌∷◌, filter, ◌≡◌, refl, ap, ◌∙◌, arith}
use project_hawkeye.Hooks.RunList.{
  Stream, fetched, fetch_failed, snapshot, run_update, disconnected, Event, fetch, fetch_error,
  snap, update, disconnect, step, run,
}

-- The events that reach the hook without the source.
abbrev pub is_fetch : Event → Bool
is_fetch (fetch runs) = true
is_fetch (fetch_error text) = true
is_fetch _ = false

step_of_closed :
    (e : Event) (s : Stream) → s.open_source ≡ false → is_fetch e ≡ false → step e s ≡ s
unfolding step snapshot run_update disconnected
step_of_closed (fetch runs) s c e = cc
step_of_closed (fetch_error text) s c e = cc
step_of_closed (snap runs) s c e = ground arith
step_of_closed (update r) s c e = ground arith
step_of_closed disconnect s c e = ground arith

run_of_closed :
    (es : List Event) (s : Stream) → s.open_source ≡ false → run es s ≡ run (filter is_fetch es) s
unfolding run step
run_of_closed [] s c = refl
run_of_closed (fetch runs ∷ es) s c = run_of_closed es (fetched runs s) c
run_of_closed (fetch_error text ∷ es) s c = run_of_closed es (fetch_failed text s) c
run_of_closed (snap runs ∷ es) s c =
    ap (run es) (step_of_closed (snap runs) s c refl) ∙ run_of_closed es s c
run_of_closed (update r ∷ es) s c =
    ap (run es) (step_of_closed (update r) s c refl) ∙ run_of_closed es s c
run_of_closed (disconnect ∷ es) s c =
    ap (run es) (step_of_closed disconnect s c refl) ∙ run_of_closed es s c

-- After a disconnection no event of the source has any effect, however late: the hook does not
-- connect again, and only its fetches still count.
pub run-disconnect :
    (es : List Event) (s : Stream)
    → run (disconnect ∷ es) s ≡ run (disconnect ∷ filter is_fetch es) s
unfolding run step
run-disconnect es s = run_of_closed es (disconnected s) (unfold disconnected in ground arith)

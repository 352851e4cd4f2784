-- ===== src/Hooks/ProjectRuns/Late.antt =====
-- An answer that comes after its instance of `useProjectRuns` has moved on.
use project_hawkeye.Base.{
  ℕ, ◌-◌, ◌<◌, String, Bool, true, false, not, ◌&&◌, List, [], ◌∷◌, Option, none, some, every,
  filter, find, if◌then◌else◌, ltb, ◌==◌, str_eq, eq_iff, subst, ◌≡◌, refl, sym, ap, ◌∙◌, arith,
  Bool-cases, Option-cases, inl, inr,
}
use project_hawkeye.Base.Dict
use project_hawkeye.Base.Strings.{is_filled}
use project_hawkeye.Runs.{RunSummary}
use project_hawkeye.Hooks.ProjectRuns.Freshness.{views-answer}
use project_hawkeye.Hooks.ProjectRuns.{
  Entry, Flight, World, ttl, show, update_view, init_view, send, refetch_from, refetch_of, refetch,
  change, is_flight, answered_by, answered, rejected_by, rejected, Event, changed, tick, answer,
  reject, step, run,
}

module _ (id : ℕ) (p : String) where
  -- The event does not end the request.
  abbrev pub leaves : Event → Bool
  leaves (changed i project now) = true
  leaves (tick i now) = true
  leaves (answer other q runs now) = not (other == id && str_eq q p)
  leaves (reject other q text) = not (other == id && str_eq q p)

  find-landed :
      (other : ℕ) (q : String) (fs : List Flight)
      → (other == id && str_eq q p) ≡ false
      → find (is_flight id p) (filter (λ f. not (is_flight other q f)) fs)
        ≡ find (is_flight id p) fs
  find-landed other q [] h = refl
  find-landed other q (f ∷ fs) h =
      ground (arith, find-landed other q fs, eq_iff f.project p, eq_iff f.project q, eq_iff q p)

  -- The request is under way, for an owner.
  abbrev IsUnderWay : ℕ → World → Type 0
  IsUnderWay i w =
      (find (is_flight id p) w.flights ≡ some (record { id = id; project = p; owner = i }))
      × (id < w.next_id)

  module _ (i : ℕ) where
    send-IsUnderWay :
        (j : ℕ) (q : String) (now : ℕ) (w : World) → IsUnderWay i w → IsUnderWay i (send j q now w)
    unfolding send
    send-IsUnderWay j q now w (found, lt) =
        let newer : (w.next_id == id) ≡ false = ground arith in (rw newer found, omega arith)

    refetch_from-IsUnderWay :
        (o : Option Entry) (j : ℕ) (q : String) (now : ℕ) (w : World)
        → IsUnderWay i w
        → IsUnderWay i (refetch_from o j q now w)
    unfolding refetch_from
    refetch_from-IsUnderWay none j q now w h = send-IsUnderWay j q now w h
    refetch_from-IsUnderWay (some e) j q now w h = elim (Option-cases e.pending) [
      | inl idle ↦ elim (Bool-cases (ltb (now - e.ts) ttl)) [
        | inl fresh ↦ rw (idle, fresh, refetch_from) h
        | inr old ↦ rw (idle, old, refetch_from) (send-IsUnderWay j q now w h)
      ]
      | inr (k, busy) ↦ rw (busy, refetch_from) h
    ]

    refetch_of-IsUnderWay :
        (o : Option String) (j now : ℕ) (w : World)
        → IsUnderWay i w
        → IsUnderWay i (refetch_of o j now w)
    unfolding refetch_of
    refetch_of-IsUnderWay none j now w h = h
    refetch_of-IsUnderWay (some q) j now w h = elim (Bool-cases (str_eq q "")) [
      | inl blank ↦ rw (blank, refetch_of) h
      | inr named ↦
          rw (named, refetch_of) (refetch_from-IsUnderWay (Dict.lookup q w.cache) j q now w h)
    ]

    answered_by-IsUnderWay :
        (o : Option Flight) (other : ℕ) (q : String) (runs : List RunSummary) (now : ℕ) (w : World)
        → (other == id && str_eq q p) ≡ false
        → IsUnderWay i w
        → IsUnderWay i (answered_by o other q runs now w)
    unfolding answered_by
    answered_by-IsUnderWay none other q runs now w left h = h
    answered_by-IsUnderWay (some f) other q runs now w left (found, lt) =
        (find-landed other q w.flights left ∙ found, lt)

    rejected_by-IsUnderWay :
        (o : Option Flight) (other : ℕ) (q text : String) (w : World)
        → (other == id && str_eq q p) ≡ false
        → IsUnderWay i w
        → IsUnderWay i (rejected_by o other q text w)
    unfolding rejected_by
    rejected_by-IsUnderWay none other q text w left h = h
    rejected_by-IsUnderWay (some f) other q text w left (found, lt) =
        (find-landed other q w.flights left ∙ found, lt)

    step-IsUnderWay :
        (e : Event) (w : World) → leaves e ≡ true → IsUnderWay i w → IsUnderWay i (step e w)
    unfolding step change refetch answered rejected
    step-IsUnderWay (changed j project now) w left h =
        let v : World = record w { views = update_view j (λ view. init_view project) w.views } in
        refetch_of-IsUnderWay (v.views j).project j now v h
    step-IsUnderWay (tick j now) w left h = refetch_of-IsUnderWay (w.views j).project j now w h
    step-IsUnderWay (answer other q runs now) w left h =
        answered_by-IsUnderWay (find (is_flight other q) w.flights) other q runs now w
          (ground arith) h
    step-IsUnderWay (reject other q text) w left h =
        rejected_by-IsUnderWay (find (is_flight other q) w.flights) other q text w (ground arith) h

    run-IsUnderWay :
        (es : List Event) (w : World)
        → every leaves es ≡ true
        → IsUnderWay i w
        → IsUnderWay i (run es w)
    unfolding run
    run-IsUnderWay [] w left h = h
    run-IsUnderWay (e ∷ es) w left h =
        run-IsUnderWay es (step e w) (ground arith) (step-IsUnderWay e w (ground arith) h)

refetch_of_absent :
    (i : ℕ) (p : String) (now : ℕ) (w : World)
    → is_filled p ≡ true
    → Dict.lookup p w.cache ≡ none
    → refetch_of (some p) i now w ≡ send i p now w
unfolding refetch_of refetch_from
refetch_of_absent i p now w filled absent =
    let named : str_eq p "" ≡ false = ground arith in
    let blank : World = record w { views = update_view i (show []) w.views } in
    ap (λ b. if b then blank else refetch_from (Dict.lookup p w.cache) i p now w) named
    ∙ ap (λ o. refetch_from o i p now w) absent

sent-IsUnderWay :
    (i : ℕ) (p : String) (now : ℕ) (w : World) → IsUnderWay w.next_id p i (send i p now w)
unfolding send
sent-IsUnderWay i p now w =
    let here : is_flight w.next_id p (record { id = w.next_id; project = p; owner = i }) ≡ true =
      ground (arith, eq_iff p p) in
    (rw here refl, omega arith)

-- An instance that is given a project whose runs are not cached has a request under way.
change-IsUnderWay :
    (w : World) (i : ℕ) (p : String) (now : ℕ)
    → is_filled p ≡ true
    → Dict.lookup p w.cache ≡ none
    → IsUnderWay w.next_id p i (step (changed i (some p) now) w)
unfolding step change refetch
change-IsUnderWay w i p now filled absent =
    let v : World = record w { views = update_view i (λ view. init_view (some p)) w.views } in
    let here : (v.views i).project ≡ some p = ground arith in
    subst (IsUnderWay w.next_id p i)
      (sym (ap (λ o. refetch_of o i now v) here ∙ refetch_of_absent i p now v filled absent))
      (sent-IsUnderWay i p now v)

-- An instance is given a project whose runs are not cached, and after any events but the end of the
-- request that it sent for it, such as a move to another project, the answer comes: the instance then
-- shows the runs of the former project, whatever project it is at, and the cache has them.
pub views-answer_late :
    (w : World) (i : ℕ) (p : String) (now : ℕ) (es : List Event) (runs : List RunSummary)
    (since : ℕ)
    → is_filled p ≡ true
    → Dict.lookup p w.cache ≡ none
    → every (leaves w.next_id p) es ≡ true
    → let moved : World = run es (step (changed i (some p) now) w) in
      let after : World = step (answer w.next_id p runs since) moved in
      (after.views i ≡ show runs (moved.views i))
      × (Dict.lookup p after.cache ≡ some (record { runs = runs; ts = since; pending = none }))
views-answer_late w i p now es runs since filled absent left =
    let sent : World = step (changed i (some p) now) w in
    let moved : World = run es sent in
    let (found, lt) =
      run-IsUnderWay w.next_id p i es sent left (change-IsUnderWay w i p now filled absent) in
    (
      views-answer moved w.next_id p found runs since i ∙ ground arith,
      unfold step answered in
          rw (found, answered_by)
            (ground (
              arith,
              Dict.lookup-set p p (record { runs = runs; ts = since; pending = none }) moved.cache,
              eq_iff p p,
            )),
    )

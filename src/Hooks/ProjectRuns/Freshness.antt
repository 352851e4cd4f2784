-- ===== src/Hooks/ProjectRuns/Freshness.antt =====
-- What the instances of `useProjectRuns` show after the answer of a request, or its failure.
use project_hawkeye.Base.{
  ℕ, ◌-◌, ◌<◌, String, Bool, true, false, not, ◌&&◌, ◌||◌, List, none, some, any, find,
  if◌then◌else◌, ltb, ◌==◌, str_eq, eq_iff, ◌≡◌, refl, arith,
}
use project_hawkeye.Base.Dict
use project_hawkeye.Base.Strings.{is_filled, includes}
use project_hawkeye.Runs.{RunSummary}
use project_hawkeye.Hooks.ProjectRuns.{
  Flight, World, ttl, show, fail, refetch_from, refetch_of, refetch, is_flight, answered_by,
  answered, rejected_by, rejected, tick, answer, reject, step, update_view,
}

-- A `refetch` that finds a fresh entry shows it and sends nothing.
refetch_of_fresh :
    (w : World) (i now : ℕ) (p : String) (runs : List RunSummary) (ts : ℕ)
    → (w.views i).project ≡ some p
    → is_filled p ≡ true
    → Dict.lookup p w.cache ≡ some (record { runs = runs; ts = ts; pending = none })
    → now - ts < ttl
    → refetch i now w ≡ record w { views = update_view i (show runs) w.views }
unfolding refetch
refetch_of_fresh w i now p runs ts at filled cached soon =
    let soon_enough : ltb (now - ts) ttl ≡ true = ground arith in
    let named : str_eq p "" ≡ false = ground arith in
    rw (at, refetch_of, named, cached, refetch_from, soon_enough) refl

module _ (w : World) (id : ℕ) (p : String) {f : Flight}
    (found : find (is_flight id p) w.flights ≡ some f) where
  -- The instances that are shown the answer of a request: its owner, and those that share it.
  abbrev pub takes : ℕ → Bool
  takes j = f.owner == j || any (λ s. s.id == id && s.view == j) w.shares

  -- The answer of a request is shown by its owner and by every instance that shares it, whatever
  -- project those are at by then, and by no other.
  pub views-answer :
      (runs : List RunSummary) (now j : ℕ)
      → (step (answer id p runs now) w).views j
        ≡ (if takes j then show runs (w.views j) else w.views j)
  unfolding step answered
  views-answer runs now j = rw (found, answered_by) (ground arith)

  -- A request that fails leaves every instance but its owner as it was, also those that share the
  -- request and are loading; and the owner too, if the text of the exception has "Unauthorized".
  pub views-reject :
      (text : String) (j : ℕ)
      → (step (reject id p text) w).views j ≡ (
          if f.owner == j && not (includes text "Unauthorized")
          then fail text (w.views j)
          else w.views j)
  unfolding step rejected
  views-reject text j = rw (found, rejected_by) (ground arith)

  -- Less than the limit after an answer, the timer of an instance at the same project sends no
  -- request, and the instance shows the runs of the answer.
  pub tick-answer :
      (runs : List RunSummary) (since now i : ℕ)
      → (w.views i).project ≡ some p
      → is_filled p ≡ true
      → now - since < ttl
      → ((step (tick i now) (step (answer id p runs since) w)).flights
          ≡ (step (answer id p runs since) w).flights)
        × ((step (tick i now) (step (answer id p runs since) w)).views i ≡ show runs (w.views i))
  unfolding step
  tick-answer runs since now i at filled soon =
      let w' = answered id p runs since w in
      let shown = views-answer runs since i in
      let at' : (w'.views i).project ≡ some p = rw shown (ground arith) in
      let cached : Dict.lookup p w'.cache
          ≡ some (record { runs = runs; ts = since; pending = none }) =
        unfold answered in
        rw (found, answered_by)
          (ground (
            arith,
            Dict.lookup-set p p (record { runs = runs; ts = since; pending = none }) w.cache,
            eq_iff p p,
          )) in
      rw (refetch_of_fresh w' i now p runs since at' filled cached soon)
        (refl, ground (arith, shown))

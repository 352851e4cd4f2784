-- ===== src/Hooks/ProjectRuns/Dedup.antt =====
-- The requests of `useProjectRuns` that are under way, and the cache's entries.
use project_hawkeye.Base.{
  ℕ, ◌≤◌, String, true, not, List, [], ◌∷◌, Option, none, some, map, if◌then◌else◌, ◌==◌, filter,
  find, any, length, str_eq, eq_iff, ◌≡◌, refl, ◌∙◌, ap, arith, inl, inr, Bool-cases, Option-cases,
}
use project_hawkeye.Base.Dict
use project_hawkeye.Runs.{RunSummary}
use project_hawkeye.Hooks.ProjectRuns.{
  Entry, Flight, World, start, cached_runs, send, refetch_from, refetch_of, refetch, is_flight,
  answered_by, answered, rejected_by, rejected, Event, changed, tick, answer, reject, step, run,
  init_view, update_view,
}

-- The numbers of the requests under way for a project.
abbrev pub ids_for : String → List Flight → List ℕ
ids_for p fs = map (λ (f : Flight). f.id) (filter (λ f. str_eq f.project p) fs)

-- The request that an entry of the cache waits for.
abbrev pub waiting : Option ℕ → List ℕ
waiting none = []
waiting (some id) = id ∷ []

abbrev pub pending_ids : Option Entry → List ℕ
pending_ids none = []
pending_ids (some e) = waiting e.pending

-- The requests under way for a project are the one that its entry in the cache waits for, if any.
abbrev pub IsShared : World → Type 0
IsShared w = (p : String) → ids_for p w.flights ≡ pending_ids (Dict.lookup p w.cache)

ids_for-landed :
    (p q : String) (id : ℕ) (fs : List Flight)
    → ids_for q (filter (λ f. not (is_flight id p f)) fs)
      ≡ (if str_eq p q then filter (λ i. not (i == id)) (ids_for q fs) else ids_for q fs)
ids_for-landed p q id [] = ground arith
ids_for-landed p q id (f ∷ fs) =
    ground (arith, eq_iff p q, eq_iff f.project q, eq_iff f.project p, ids_for-landed p q id fs)

-- A flight that is found is among those of its project.
any-ids_for :
    (p : String) (id : ℕ) (fs : List Flight) {f : Flight}
    → find (is_flight id p) fs ≡ some f
    → any (λ i. i == id) (ids_for p fs) ≡ true
any-ids_for p id [] h = cc
any-ids_for p id (g ∷ fs) h = elim (Bool-cases (is_flight id p g)) [
  | inl here ↦ ground arith
  | inr other ↦ ground (arith, any-ids_for p id fs (rw (other, find) at h))
]

filter-waiting :
    (id : ℕ) (pending : Option ℕ)
    → any (λ i. i == id) (waiting pending) ≡ true
    → filter (λ i. not (i == id)) (waiting pending) ≡ []
filter-waiting id none h = refl
filter-waiting id (some k) h = ground arith

filter-pending_ids :
    (id : ℕ) (o : Option Entry)
    → any (λ i. i == id) (pending_ids o) ≡ true
    → filter (λ i. not (i == id)) (pending_ids o) ≡ []
filter-pending_ids id none h = refl
filter-pending_ids id (some e) h = filter-waiting id e.pending h

-- Landing empties the requests of the project, and leaves those of the others.
ids_for-landed_of_shared :
    (w : World) (id : ℕ) (p q : String) {f : Flight}
    → IsShared w
    → find (is_flight id p) w.flights ≡ some f
    → ids_for q (filter (λ f. not (is_flight id p f)) w.flights)
      ≡ (if str_eq p q then [] else pending_ids (Dict.lookup q w.cache))
ids_for-landed_of_shared w id p q shared found =
    let nonempty = any-ids_for p id w.flights found in
    ids_for-landed p q id w.flights ∙ elim (Bool-cases (str_eq p q)) [
      | inl same ↦
          let n : any (λ i. i == id) (pending_ids (Dict.lookup q w.cache)) ≡ true =
            rw (← (eq_iff p q).0 same, ← shared p) nonempty in
          rw (same, shared q) (filter-pending_ids id (Dict.lookup q w.cache) n)
      | inr other ↦ rw other (shared q)
    ]

module _ (w : World) (shared : IsShared w) where
  send-IsShared :
      (i : ℕ) (p : String) (now : ℕ)
      → pending_ids (Dict.lookup p w.cache) ≡ []
      → IsShared (send i p now w)
  unfolding send
  send-IsShared i p now idle q = ground (
    arith,
    eq_iff p q,
    Dict.lookup-set p q
        (record { runs = cached_runs (Dict.lookup p w.cache); ts = now; pending = some w.next_id })
        w.cache,
    shared q,
  )

  refetch_from-IsShared :
      (o : Option Entry) (i : ℕ) (p : String) (now : ℕ)
      → Dict.lookup p w.cache ≡ o
      → IsShared (refetch_from o i p now w)
  unfolding refetch_from
  refetch_from-IsShared none i p now e = send-IsShared i p now (ap pending_ids e)
  refetch_from-IsShared (some entry) i p now e = elim (Option-cases entry.pending) [
    | inl idle ↦
        λ q. ground (arith, shared q, send-IsShared i p now (ap pending_ids e ∙ ap waiting idle) q)
    | inr (id, busy) ↦ rw (busy, refetch_from) shared
  ]

  refetch-IsShared : (i now : ℕ) → IsShared (refetch i now w)
  unfolding refetch
  refetch-IsShared i now = by_project (w.views i).project
    where
      by_project : (o : Option String) → IsShared (refetch_of o i now w)
      by_project none = shared
      by_project (some p) = elim (Bool-cases (str_eq p "")) [
        | inl blank ↦ rw (blank, refetch_of) shared
        | inr named ↦
            rw (named, refetch_of) (refetch_from-IsShared (Dict.lookup p w.cache) i p now refl)
      ]

  answered-IsShared :
      (id : ℕ) (p : String) (runs : List RunSummary) (now : ℕ) → IsShared (answered id p runs now w)
  unfolding answered
  answered-IsShared id p runs now = elim (Option-cases (find (is_flight id p) w.flights)) [
    | inl lost ↦ rw (lost, answered_by) shared
    | inr (f, found) ↦
        rw (found, answered_by)
          (λ q.
            ids_for-landed_of_shared w id p q shared found
            ∙ ground (
              arith,
              Dict.lookup-set p q (record { runs = runs; ts = now; pending = none }) w.cache,
            ))
  ]

  rejected-IsShared : (id : ℕ) (p text : String) → IsShared (rejected id p text w)
  unfolding rejected
  rejected-IsShared id p text = elim (Option-cases (find (is_flight id p) w.flights)) [
    | inl lost ↦ rw (lost, rejected_by) shared
    | inr (f, found) ↦
        rw (found, rejected_by)
          (λ q.
            ids_for-landed_of_shared w id p q shared found
            ∙ ground (arith, Dict.lookup-delete p q w.cache))
  ]

step-IsShared : (e : Event) (w : World) → IsShared w → IsShared (step e w)
unfolding step
step-IsShared (changed i project now) w h =
    refetch-IsShared (record w { views = update_view i (λ v. init_view project) w.views }) h i now
step-IsShared (tick i now) w h = refetch-IsShared w h i now
step-IsShared (answer id p runs now) w h = answered-IsShared w h id p runs now
step-IsShared (reject id p text) w h = rejected-IsShared w h id p text

run-IsShared : (es : List Event) (w : World) → IsShared w → IsShared (run es w)
unfolding run
run-IsShared [] w h = h
run-IsShared (e ∷ rest) w h = run-IsShared rest (step e w) (step-IsShared e w h)

length-waiting : (o : Option ℕ) → length (waiting o) ≤ 1
length-waiting none = omega arith
length-waiting (some id) = omega arith

length-pending_ids : (o : Option Entry) → length (pending_ids o) ≤ 1
length-pending_ids none = omega arith
length-pending_ids (some e) = length-waiting e.pending

-- Whatever the instances, timers and answers, in whatever order: for each project at most one
-- request is under way, and it is the one that the cache's entry names as pending.
pub run-IsDeduped :
    (es : List Event) (p : String)
    → (ids_for p (run es start).flights ≡ pending_ids (Dict.lookup p (run es start).cache))
      × (length (ids_for p (run es start).flights) ≤ 1)
unfolding Dict.lookup
run-IsDeduped es p =
    let same = run-IsShared es start (λ q. refl) p in
    (same, rw same (length-pending_ids (Dict.lookup p (run es start).cache)))

-- ===== src/Hooks/RunList/Keys.antt =====
-- The runs in the map and the list of `useRuns`.
use project_hawkeye.Base.{
  String, Bool, true, false, List, [], ◌∷◌, ◌++◌, map, Option, none, some, is_some, Option-cases,
  if◌then◌else◌, or_else, str_eq, eq_iff, ◌≡◌, refl, sym, ap, ◌∙◌, arith, Bool-cases, inl, inr,
}
use project_hawkeye.Base.Dict
use project_hawkeye.Base.Dict.{Dict}
use project_hawkeye.Base.Strings.{contains, contains-append}
use project_hawkeye.Base.Strings
use project_hawkeye.Runs.{RunSummary}
use project_hawkeye.Hooks.RunList.{
  Stream, initial, map_of, unique, fetched, fetch_failed, snapshot, run_update, disconnected, Event,
  fetch, fetch_error, snap, update, disconnect, step, run,
}

-- Entries stand under their own identifiers, each once.
abbrev pub Keyed : Dict RunSummary → Type 0
Keyed [] = Unit
Keyed ((k, r) ∷ m) = (r.run_id ≡ k) × Keyed m

abbrev pub ids : List RunSummary → List String
ids = map (λ (r : RunSummary). r.run_id)

set-Keyed : (r : RunSummary) (m : Dict RunSummary) → Keyed m → Keyed (Dict.set r.run_id r m)
unfolding Dict.set
set-Keyed r [] h = (refl, tt)
set-Keyed r ((k, q) ∷ m) (e, h) = ground (arith, eq_iff k r.run_id, set-Keyed r m h)

map_of-IsKeyed :
    (runs : List RunSummary) (m : Dict RunSummary)
    → Keyed m × Dict.Distinct m
    → Keyed (map_of runs m) × Dict.Distinct (map_of runs m)
unfolding map_of
map_of-IsKeyed [] m h = h
map_of-IsKeyed (r ∷ rest) m (k, d) =
    map_of-IsKeyed rest _ (set-Keyed r m k, Dict.set-Distinct r.run_id r m d)

-- In such a map the values have different identifiers.
contains-ids-values :
    (id : String) (m : Dict RunSummary)
    → Keyed m
    → Dict.lookup id m ≡ none
    → contains id (ids (Dict.values m)) ≡ false
unfolding Dict.lookup Dict.values contains
contains-ids-values id [] k h = refl
contains-ids-values id ((j, r) ∷ m) (e, k) h =
    ground (arith, eq_iff j id, eq_iff r.run_id id, contains-ids-values id m k)

values-Distinct :
    (m : Dict RunSummary) → Keyed m → Dict.Distinct m → Strings.Distinct (ids (Dict.values m))
unfolding Dict.values
values-Distinct [] k d = tt
values-Distinct ((j, r) ∷ m) (e, k) (new, d) =
    (contains-ids-values r.run_id m k (rw e new), values-Distinct m k d)

unique-fresh :
    (seen : List String) (runs : List RunSummary) (id : String)
    → contains id seen ≡ true
    → contains id (ids (unique seen runs)) ≡ false
unfolding unique contains
unique-fresh seen [] id h = refl
unique-fresh seen (r ∷ rest) id h = ground (
  arith,
  eq_iff r.run_id id,
  unique-fresh seen rest id,
  unique-fresh (seen ++ r.run_id ∷ []) rest id,
  contains-append id seen (r.run_id ∷ []),
)

unique-Distinct :
    (seen : List String) (runs : List RunSummary) → Strings.Distinct (ids (unique seen runs))
unfolding unique contains
unique-Distinct seen [] = tt
unique-Distinct seen (r ∷ rest) = elim (Bool-cases (contains r.run_id seen)) [
  | inl old ↦ rw (old) (unique-Distinct seen rest)
  | inr new ↦ rw (new) (
    unique-fresh (seen ++ r.run_id ∷ []) rest r.run_id
        (ground (arith, eq_iff r.run_id r.run_id, contains-append r.run_id seen (r.run_id ∷ []))),
    unique-Distinct (seen ++ r.run_id ∷ []) rest,
  )
]

abbrev pub IsKeyed : Stream → Type 0
IsKeyed s = Keyed s.by_id × Dict.Distinct s.by_id

step-IsKeyed : (e : Event) (s : Stream) → IsKeyed s → IsKeyed (step e s)
unfolding step
step-IsKeyed (fetch runs) s h = map_of-IsKeyed (unique [] runs) [] (tt, tt)
step-IsKeyed (fetch_error text) s h = unfold fetch_failed in h
step-IsKeyed (snap runs) s h = elim (Bool-cases s.open_source) [
  | inl o ↦ rw (o, snapshot) (map_of-IsKeyed runs [] (tt, tt))
  | inr c ↦ rw (c, snapshot) h
]
step-IsKeyed (update r) s h = elim (Bool-cases s.open_source) [
  | inl o ↦ rw (o, run_update) (set-Keyed r s.by_id h.0, Dict.set-Distinct r.run_id r s.by_id h.1)
  | inr c ↦ rw (c, run_update) h
]
step-IsKeyed disconnect s h = elim (Bool-cases s.open_source) [
  | inl o ↦ rw (o, disconnected) h
  | inr c ↦ rw (c, disconnected) h
]

run-IsKeyed : (es : List Event) (s : Stream) → IsKeyed s → IsKeyed (run es s)
unfolding run
run-IsKeyed [] s h = h
run-IsKeyed (e ∷ rest) s h = run-IsKeyed rest (step e s) (step-IsKeyed e s h)

-- The identifiers of what the list shows.
abbrev pub shown_ids : Stream → List String
shown_ids s = ids (or_else s.state.runs [])

-- The last record of an identifier in a list, or what is given
abbrev pub last_of : String → Option RunSummary → List RunSummary → Option RunSummary
last_of j found [] = found
last_of j found (r ∷ rest) = last_of j (if str_eq r.run_id j then some r else found) rest

-- The record that the hook shows of a run
abbrev pub record_of : String → Stream → Option RunSummary
record_of j s = last_of j none (or_else s.state.runs [])

lookup-map_of :
    (j : String) (runs : List RunSummary) (m : Dict RunSummary)
    → Dict.lookup j (map_of runs m) ≡ last_of j (Dict.lookup j m) runs
unfolding map_of
lookup-map_of j [] m = refl
lookup-map_of j (r ∷ rest) m =
    lookup-map_of j rest (Dict.set r.run_id r m)
    ∙ ap (λ found. last_of j found rest) (Dict.lookup-set r.run_id j r m)

last_of_test :
    (j : String) (b : Bool) (found : Option RunSummary) (r : RunSummary) (rest : List RunSummary)
    → str_eq r.run_id j ≡ b
    → last_of j found (r ∷ rest) ≡ last_of j (if b then some r else found) rest
last_of_test j b found r rest h = ap (λ c. last_of j (if c then some r else found) rest) h

last_of-values :
    (j : String) (found : Option RunSummary) (m : Dict RunSummary)
    → Keyed m
    → Dict.Distinct m
    → last_of j found (Dict.values m)
      ≡ (if is_some (Dict.lookup j m) then Dict.lookup j m else found)
unfolding Dict.lookup Dict.values
last_of-values j found [] k d = refl
last_of-values j found ((i, r) ∷ m) (e, k) (new, d) =
    let test : str_eq r.run_id j ≡ str_eq i j = ap (λ x. str_eq x j) e in
    last_of_test j (str_eq i j) found r (Dict.values m) test ∙ elim (Bool-cases (str_eq i j)) [
      | inl same ↦
          let absent : Dict.lookup j m ≡ none =
            ap (λ x. Dict.lookup x m) (sym ((eq_iff i j).0 same)) ∙ new in
          rw same (last_of-values j (some r) m k d ∙ rw absent refl)
      | inr other ↦ rw other (last_of-values j found m k d)
    ]

-- What the list shows of each run is what the map has.
abbrev Agrees : String → Stream → Type 0
Agrees j s = record_of j s ≡ Dict.lookup j s.by_id

agrees_of_map :
    (j : String) (runs : List RunSummary) → last_of j none runs ≡ Dict.lookup j (map_of runs [])
unfolding Dict.lookup
agrees_of_map j runs = sym (lookup-map_of j runs [])

agrees_of_values :
    (j : String) (m : Dict RunSummary)
    → Keyed m
    → Dict.Distinct m
    → last_of j none (Dict.values m) ≡ Dict.lookup j m
agrees_of_values j m k d = last_of-values j none m k d ∙ elim (Option-cases (Dict.lookup j m)) [
  | inl absent ↦ rw absent refl
  | inr (r, there) ↦ rw there refl
]

step-Agrees : (j : String) (e : Event) (s : Stream) → IsKeyed s → Agrees j s → Agrees j (step e s)
unfolding step
step-Agrees j (fetch runs) s h a = unfold fetched in agrees_of_map j (unique [] runs)
step-Agrees j (fetch_error text) s h a = unfold fetch_failed in a
step-Agrees j (snap runs) s h a = elim (Bool-cases s.open_source) [
  | inl o ↦ rw (o, snapshot) (agrees_of_map j runs)
  | inr c ↦ rw (c, snapshot) a
]
step-Agrees j (update r) s h a = elim (Bool-cases s.open_source) [
  | inl o ↦
      rw (o, run_update)
        (agrees_of_values j (Dict.set r.run_id r s.by_id) (set-Keyed r s.by_id h.0)
          (Dict.set-Distinct r.run_id r s.by_id h.1))
  | inr c ↦ rw (c, run_update) a
]
step-Agrees j disconnect s h a = elim (Bool-cases s.open_source) [
  | inl o ↦ rw (o, disconnected) a
  | inr c ↦ rw (c, disconnected) a
]

run-Agrees :
    (j : String) (es : List Event) (s : Stream) → IsKeyed s → Agrees j s → Agrees j (run es s)
unfolding run
run-Agrees j [] s h a = a
run-Agrees j (e ∷ rest) s h a =
    run-Agrees j rest (step e s) (step-IsKeyed e s h) (step-Agrees j e s h a)

-- However the list came about, an update of a run that comes in while the source is open leaves a
-- list in which no run stands twice, which shows that run as it came and every other run as the list
-- showed it last before, the absent ones not at all.
pub run-update :
    (es : List Event) (r : RunSummary) (j : String)
    → (run es initial).open_source ≡ true
    → Strings.Distinct (shown_ids (step (update r) (run es initial)))
      × (record_of j (step (update r) (run es initial))
          ≡ (if str_eq r.run_id j then some r else record_of j (run es initial)))
unfolding step Dict.lookup
run-update es r j o =
    let s = run es initial in
    let (k, d) = run-IsKeyed es initial (tt, tt) in
    let before : record_of j s ≡ Dict.lookup j s.by_id = run-Agrees j es initial (tt, tt) refl in
    let k' = set-Keyed r s.by_id k in
    let d' = Dict.set-Distinct r.run_id r s.by_id d in
    rw (o, run_update, before)
      (
        values-Distinct _ k' d',
        agrees_of_values j (Dict.set r.run_id r s.by_id) k' d'
            ∙ Dict.lookup-set r.run_id j r s.by_id,
      )

-- A fetch shows each run once, the first of its records.
pub shown_ids-fetch :
    (runs : List RunSummary) (s : Stream)
    → (step (fetch runs) s).state.runs ≡ some (unique [] runs)
      × Strings.Distinct (shown_ids (step (fetch runs) s))
unfolding step
shown_ids-fetch runs s = (refl, unique-Distinct [] runs)

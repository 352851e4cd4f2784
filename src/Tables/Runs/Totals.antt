-- ===== src/Tables/Runs/Totals.antt =====
-- The counts, the rate and the order that the two tables show.
use project_hawkeye.Base.{
  ℕ, ◌+◌, ◌*◌, ◌/◌, ◌%◌, ◌≤◌, ◌<◌, ltb→lt, String, Bool, true, List, [], ◌∷◌, Option, some, filter,
  length, All, count_by, if◌then◌else◌, leb, ltb, or_else, ◌≡◌, refl, arith, Bool-cases, inl, inr,
}
use native.Mathlib.Nat.{div-lt_iff_lt-mul}
use project_hawkeye.Runs.{
  RunStatus, queued, running, passed, RunSummary, is_active, is_terminal, is_active-is_terminal,
}
use project_hawkeye.Tables.Runs.{
  is_passed, StatusFilter, all_runs, active_runs, passed_runs, failed_runs, counts, count_of,
  metrics, percent, seconds, minutes, format_duration, insert, sort_latest, filtered, completed,
}

-- When the query is blank, each tab of the dashboard shows as many rows as its badge says.
pub length-filtered :
    (trim lower : String → String) (q : String) (status : StatusFilter)
    (runs : Option (List RunSummary))
    → lower (trim q) ≡ ""
    → length (filtered trim lower q status runs) ≡ count_of (counts runs) status
unfolding filtered counts
length-filtered trim lower q all_runs runs blank = rw blank refl
length-filtered trim lower q active_runs runs blank = rw blank refl
length-filtered trim lower q passed_runs runs blank = rw blank refl
length-filtered trim lower q failed_runs runs blank = rw blank refl

passed-is_terminal : (s : RunStatus) → is_passed s ≡ true → is_terminal s ≡ true
unfolding is_terminal
passed-is_terminal passed h = refl
passed-is_terminal queued h = h
passed-is_terminal running h = h
passed-is_terminal _ h = refl

count_passed :
    (runs : List RunSummary)
    → count_by (λ r. is_passed r.status) runs ≤ count_by (λ r. is_terminal r.status) runs
count_passed [] = omega arith
count_passed (r ∷ runs) = ground (arith, count_passed runs, passed-is_terminal r.status)

count_active :
    (runs : List RunSummary)
    → count_by (λ r. is_active r.status) runs + count_by (λ r. is_terminal r.status) runs
      ≡ length runs
count_active [] = omega arith
count_active (r ∷ runs) = ground (arith, count_active runs, is_active-is_terminal r.status)

or_else-percent-le : (part whole : ℕ) → part ≤ whole → or_else (percent part whole) 0 ≤ 100
or_else-percent-le part whole h = elim (Bool-cases (ltb 0 whole)) [
  | inl some_run ↦
      let positive : 0 < 2 * whole = ground arith in
      let small : 200 * part + whole < 101 * (2 * whole) = omega arith in
      rw some_run (
        ground
          (arith, div-lt_iff_lt-mul {k = 2 * whole} {x = 200 * part + whole} {y = 101} positive))
  | inr no_run ↦ rw no_run (omega arith)
]

-- The cards of the dashboard agree: the active and the completed runs are all the runs, the passed
-- ones are among the completed, and the rate, which is shown when a run is completed, is at most 100.
pub metrics_lem :
    (runs : List RunSummary)
    → ((metrics runs).active + (metrics runs).completed ≡ (metrics runs).total)
      × ((metrics runs).passed ≤ (metrics runs).completed)
      × (or_else (metrics runs).pass_rate 0 ≤ 100)
unfolding metrics
metrics_lem runs = (
  count_active runs,
  count_passed runs,
  or_else-percent-le (count_by (λ r. is_passed r.status) runs)
      (count_by (λ r. is_terminal r.status) runs) (count_passed runs),
)

-- When the seconds that are left over are within half a second of a minute, the duration is shown
-- with 60 seconds, and no minute more.
pub format_duration_of_rounding :
    (ms : ℕ)
    → 59500 ≤ ms % 60000
    → format_duration (some ms) ≡ (if ltb ms 60000 then seconds 60 else minutes (ms / 60000) 60)
unfolding format_duration
format_duration_of_rounding ms h =
    let rest : (ms % 60000 + 500) / 1000 ≡ 60 = omega arith in
    elim (Bool-cases (ltb ms 60000)) [
      | inl short ↦
          let all : (ms + 500) / 1000 ≡ 60 = omega (arith, ltb→lt ms 60000 short) in
          rw (all, rest) refl
      | inr long ↦ rw (long, rest) refl
    ]

-- The latest run first.
abbrev pub IsLatestFirst : List RunSummary → Type 0
IsLatestFirst [] = Unit
IsLatestFirst (r ∷ rest) = All (λ x. x.created_at ≤ r.created_at) rest × IsLatestFirst rest

insert-All :
    (n : ℕ) (r : RunSummary) (xs : List RunSummary)
    → r.created_at ≤ n
    → All (λ x. x.created_at ≤ n) xs
    → All (λ x. x.created_at ≤ n) (insert r xs)
insert-All n r [] h k = (h, tt)
insert-All n r (x ∷ xs) h (e, k) = ground (arith, insert-All n r xs h k)

All-le :
    (m n : ℕ) (xs : List RunSummary)
    → m ≤ n
    → All (λ x. x.created_at ≤ m) xs
    → All (λ x. x.created_at ≤ n) xs
All-le m n [] h k = tt
All-le m n (x ∷ xs) h (e, k) = (omega arith, All-le m n xs h k)

insert-IsLatestFirst :
    (r : RunSummary) (xs : List RunSummary) → IsLatestFirst xs → IsLatestFirst (insert r xs)
insert-IsLatestFirst r [] h = (tt, tt)
insert-IsLatestFirst r (x ∷ xs) (e, h) = elim (Bool-cases (leb x.created_at r.created_at)) [
  | inl before ↦
      rw before ((ground arith, All-le x.created_at r.created_at xs (ground arith) e), (e, h))
  | inr after ↦
      rw after (insert-All x.created_at r xs (ground arith) e, insert-IsLatestFirst r xs h)
]

sort_latest-IsLatestFirst : (xs : List RunSummary) → IsLatestFirst (sort_latest xs)
sort_latest-IsLatestFirst [] = tt
sort_latest-IsLatestFirst (x ∷ xs) =
    insert-IsLatestFirst x (sort_latest xs) (sort_latest-IsLatestFirst xs)

count_by-insert :
    (p : RunSummary → Bool) (r : RunSummary) (xs : List RunSummary)
    → count_by p (insert r xs) ≡ count_by p (r ∷ xs)
count_by-insert p r [] = refl
count_by-insert p r (x ∷ xs) = ground (arith, count_by-insert p r xs)

count_by-sort_latest :
    (p : RunSummary → Bool) (xs : List RunSummary) → count_by p (sort_latest xs) ≡ count_by p xs
count_by-sort_latest p [] = refl
count_by-sort_latest p (x ∷ xs) =
    ground (arith, count_by-insert p x (sort_latest xs), count_by-sort_latest p xs)

-- The artifacts page lists the completed runs, the latest first, and neither drops nor repeats one:
-- as many of them pass any test as completed runs do.
pub completed_lem :
    (trim lower : String → String) (p : RunSummary → Bool) (runs : List RunSummary)
    → IsLatestFirst (completed trim lower (some runs))
      × (count_by p (completed trim lower (some runs))
          ≡ count_by p (filter (λ r. is_terminal r.status) runs))
unfolding completed
completed_lem trim lower p runs = (
  sort_latest-IsLatestFirst (filter (λ r. is_terminal r.status) runs),
  count_by-sort_latest p (filter (λ r. is_terminal r.status) runs),
)

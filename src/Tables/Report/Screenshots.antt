-- ===== src/Tables/Report/Screenshots.antt =====
-- The screenshots of a report, and its card of assertions.
use project_hawkeye.Base.{
  ℕ, ◌+◌, ◌≤◌, Bool, not, List, [], ◌∷◌, filter, length, count_by, leb, ◌==◌, ◌≡◌, refl, ◌∙◌, arith,
  Bool-cases, inl, inr, leb→le,
}
use project_hawkeye.Runs.{RunSummary, AssertionResult}
use project_hawkeye.Tables.Report.{
  ArtifactMeta, step_of, is_screenshot, insert_step, sort_steps, screenshots, assertions,
  passed_count, Verdict, none_defined, all_passed, some_failed, verdict,
}

abbrev pub IsByStep : List ArtifactMeta → Type 0
IsByStep [] = Unit
IsByStep (a ∷ []) = Unit
IsByStep (a ∷ b ∷ rest) = (step_of a ≤ step_of b) × IsByStep (b ∷ rest)

IsByStep-cons :
    (x a : ArtifactMeta) (xs : List ArtifactMeta)
    → step_of x ≤ step_of a
    → IsByStep (x ∷ xs)
    → IsByStep (insert_step a xs)
    → IsByStep (x ∷ insert_step a xs)
unfolding insert_step
IsByStep-cons x a [] below sorted rest = (below, tt)
IsByStep-cons x a (y ∷ ys) below (first, sorted) rest = ground (arith)

IsByStep-tail : (x : ArtifactMeta) (xs : List ArtifactMeta) → IsByStep (x ∷ xs) → IsByStep xs
IsByStep-tail x [] sorted = tt
IsByStep-tail x (y ∷ ys) (first, sorted) = sorted

insert_step-IsByStep :
    (a : ArtifactMeta) (xs : List ArtifactMeta) → IsByStep xs → IsByStep (insert_step a xs)
unfolding insert_step
insert_step-IsByStep a [] sorted = tt
insert_step-IsByStep a (x ∷ xs) sorted = elim (Bool-cases (leb (step_of a) (step_of x))) [
  | inl below ↦ rw below (leb→le _ _ below, sorted)
  | inr above ↦ rw above (
      IsByStep-cons x a xs (ground arith) sorted
        (insert_step-IsByStep a xs (IsByStep-tail x xs sorted)))
]

sort_steps-IsByStep : (xs : List ArtifactMeta) → IsByStep (sort_steps xs)
unfolding sort_steps
sort_steps-IsByStep [] = tt
sort_steps-IsByStep (a ∷ xs) = insert_step-IsByStep a (sort_steps xs) (sort_steps-IsByStep xs)

abbrev is_at : ℕ → ArtifactMeta → Bool
is_at n a = step_of a == n

-- Inserting keeps the order of what has one step.
filter-insert_step :
    (n : ℕ) (a : ArtifactMeta) (xs : List ArtifactMeta)
    → filter (is_at n) (insert_step a xs) ≡ filter (is_at n) (a ∷ xs)
unfolding insert_step
filter-insert_step n a [] = refl
filter-insert_step n a (x ∷ xs) = ground (arith, filter-insert_step n a xs)

filter-sort_steps :
    (n : ℕ) (xs : List ArtifactMeta) → filter (is_at n) (sort_steps xs) ≡ filter (is_at n) xs
unfolding sort_steps
filter-sort_steps n [] = refl
filter-sort_steps n (a ∷ xs) =
    filter-insert_step n a (sort_steps xs) ∙ ground (arith, filter-sort_steps n xs)

-- The report shows the screenshots of the manifest by step, and those of one step in the order of
-- the manifest, none lost or repeated.
pub screenshots_lem :
    (n : ℕ) (manifest : List ArtifactMeta)
    → IsByStep (screenshots manifest)
      × (filter (is_at n) (screenshots manifest) ≡ filter (is_at n) (filter is_screenshot manifest))
unfolding screenshots
screenshots_lem n manifest = (
  sort_steps-IsByStep (filter is_screenshot manifest),
  filter-sort_steps n (filter is_screenshot manifest),
)

-- How many of a verdict failed
abbrev pub failures_of : Verdict → ℕ
failures_of none_defined = 0
failures_of (all_passed total) = 0
failures_of (some_failed passed total failures) = failures

count_not :
    (results : List AssertionResult)
    → count_by (λ (a : AssertionResult). not a.passed) results
        + count_by (λ (a : AssertionResult). a.passed) results
      ≡ length results
count_not [] = omega arith
count_not (a ∷ rest) = ground (arith, count_not rest)

-- The card of the assertions names as many failures as assertions have not passed.
pub failures-verdict :
    (run : RunSummary)
    → failures_of (verdict run) ≡ count_by (λ (a : AssertionResult). not a.passed) (assertions run)
unfolding verdict passed_count
failures-verdict run = ground (arith, count_not (assertions run))

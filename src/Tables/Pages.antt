-- ===== src/Tables/Pages.antt =====
-- Pages of a table: the `totalPages`, `safePage` and `pageRows` of dashboard/page.tsx and
-- artifacts/page.tsx, and the buttons of `RunsPagination`.
pub mod Rows
pub mod Buttons
use project_hawkeye.Base.{
  ℕ, zero, suc, ◌+◌, ◌-◌, ◌*◌, ◌/◌, min, max, Bool, ◌&&◌, ◌||◌, List, [], ◌∷◌, length, take, drop,
  filter, Option, none, some, if◌then◌else◌, ◌==◌, leb, ltb,
}

-- `Math.max(1, Math.ceil(n / size))`, for a size that is not 0
unfoldable pub total_pages : ℕ → ℕ → ℕ
total_pages size n = max 1 ((n + (size - 1)) / size)

unfoldable pub safe_page : ℕ → ℕ → ℕ → ℕ
unfolding total_pages
safe_page size page n = min page (total_pages size n)

-- `xs.slice(from, to)`
abbrev pub slice {ℓ} : {A : Type ℓ} → ℕ → ℕ → List A → List A
slice from to xs = take (to - from) (drop from xs)

unfoldable pub page_rows {ℓ} : {A : Type ℓ} → ℕ → ℕ → List A → List A
unfolding safe_page
page_rows size page rows =
    slice ((safe_page size page (length rows) - 1) * size)
      (safe_page size page (length rows) * size) rows

-- The text below the table.
pub data Range : Type 0 where
  whole : (count : ℕ) → Range
  part : (from to count : ℕ) → Range

unfoldable pub shown_range : ℕ → ℕ → ℕ → Range
shown_range size page count =
    if leb count size
    then whole count
    else part ((page - 1) * size + 1) (min (page * size) count) count

pub data Button : Type 0 where
  dots : Button
  number : (page : ℕ) → Button

-- `n` numbers from `start` on
abbrev pub numbers : ℕ → ℕ → List ℕ
numbers start zero = []
numbers start (suc n) = start ∷ numbers (suc start) n

unfoldable pub is_visible : ℕ → ℕ → ℕ → Bool
is_visible page total p = p == 1 || p == total || leb p (page + 1) && leb page (p + 1)

-- The `reduce` that puts "..." into gaps, after the number before.
abbrev pub with_gaps : Option ℕ → List ℕ → List Button
with_gaps before [] = []
with_gaps none (p ∷ ps) = number p ∷ with_gaps (some p) ps
with_gaps (some q) (p ∷ ps) =
    let rest = with_gaps (some p) ps in
    (if ltb 1 (p - q) then dots ∷ number p ∷ rest else number p ∷ rest)

unfoldable pub buttons : ℕ → ℕ → List Button
unfolding is_visible
buttons page total = with_gaps none (filter (is_visible page total) (numbers 1 total))

-- The arrows: `Math.max(1, page - 1)` and `Math.min(totalPages, page + 1)`
abbrev pub back : ℕ → ℕ
back page = max 1 (page - 1)

abbrev pub forward : ℕ → ℕ → ℕ
forward total page = min total (page + 1)

-- ===== src/Tables/Pages/Rows.antt =====
-- The pages of a table and its rows.
use project_hawkeye.Base.{
  ℕ, zero, suc, ◌+◌, ◌-◌, ◌*◌, ◌≤◌, min, List, [], ◌∷◌, ◌++◌, length, take, drop, length-take,
  length-drop, ◌≡◌, refl, sym, ap, ◌∙◌, arith,
}
use project_hawkeye.Tables.Pages.{total_pages, safe_page, page_rows}

module _ {ℓ} {A : Type ℓ} where
  take_all : (n : ℕ) (xs : List A) → length xs ≤ n → take n xs ≡ xs
  take_all zero [] h = refl
  take_all zero (x ∷ xs) h = ground arith
  take_all (suc n) [] h = refl
  take_all (suc n) (x ∷ xs) h = ap (x ∷◌) (take_all n xs (omega arith))

  take_nil : (n : ℕ) → take {A = A} n [] ≡ []
  take_nil zero = refl
  take_nil (suc n) = refl

  take_add : (m n : ℕ) (xs : List A) → take m xs ++ take n (drop m xs) ≡ take (m + n) xs
  take_add zero n xs = let e : n ≡ 0 + n = omega arith in ap (λ k. take k xs) e
  take_add (suc m) n [] = take_nil n ∙ sym (take_nil (suc m + n))
  take_add (suc m) n (x ∷ xs) =
      let e : suc (m + n) ≡ suc m + n = omega arith in
      ap (x ∷◌) (take_add m n xs) ∙ ap (λ k. take k (x ∷ xs)) e

  -- The rows of the pages from the first, `count` pages of them.
  abbrev pub rows_of_pages : ℕ → ℕ → List A → List A
  rows_of_pages size zero rows = []
  rows_of_pages size (suc p) rows = rows_of_pages size p rows ++ page_rows size (suc p) rows

  page_rows_within :
      (size p : ℕ) (rows : List A)
      → suc p ≤ total_pages size (length rows)
      → page_rows size (suc p) rows ≡ take size (drop (p * size) rows)
  unfolding page_rows safe_page
  page_rows_within size p rows h =
      let page : min (suc p) (total_pages size (length rows)) ≡ suc p = omega arith in
      let before : suc p - 1 ≡ p = omega arith in
      let from : (suc p - 1) * size ≡ p * size = ap (◌* size) before in
      let count : suc p * size - p * size ≡ size = omega arith in rw (page, from, count) refl

  rows_of_pages-take :
      (size p : ℕ) (rows : List A)
      → p ≤ total_pages size (length rows)
      → rows_of_pages size p rows ≡ take (p * size) rows
  rows_of_pages-take size zero rows h =
      let e : 0 ≡ 0 * size = omega arith in ap (λ n. take n rows) e
  rows_of_pages-take size (suc p) rows h =
      let e : p * size + size ≡ suc p * size = omega arith in
      ap (◌++ page_rows size (suc p) rows) (rows_of_pages-take size p rows (omega arith))
      ∙ ap (take (p * size) rows ++◌) (page_rows_within size p rows h)
      ∙ take_add (p * size) size rows
      ∙ ap (λ n. take n rows) e

  rows_of_all_pages :
      (size : ℕ) (rows : List A)
      → length rows ≤ total_pages size (length rows) * size
      → rows_of_pages size (total_pages size (length rows)) rows ≡ rows
  rows_of_all_pages size rows h =
      rows_of_pages-take size (total_pages size (length rows)) rows (omega arith)
      ∙ take_all (total_pages size (length rows) * size) rows h

  length-page_rows_within :
      (size page : ℕ) (rows : List A)
      → length (page_rows size page rows)
        ≡ min
            (safe_page size page (length rows) * size
              - (safe_page size page (length rows) - 1) * size)
            (length rows - (safe_page size page (length rows) - 1) * size)
  unfolding page_rows
  length-page_rows_within size page rows =
      let to = safe_page size page (length rows) * size in
      let from = (safe_page size page (length rows) - 1) * size in
      length-take (to - from) (drop from rows) ∙ ap (min (to - from)) (length-drop from rows)

  -- The pages of the dashboard, ten rows each, hold together every row once, in the table's order;
  -- and so do the pages of the artifacts page, fifteen rows each.
  pub rows_of_pages_lem :
      (rows : List A)
      → (rows_of_pages 10 (total_pages 10 (length rows)) rows ≡ rows)
        × (rows_of_pages 15 (total_pages 15 (length rows)) rows ≡ rows)
  rows_of_pages_lem rows = (
    rows_of_all_pages 10 rows (unfold total_pages in omega arith),
    rows_of_all_pages 15 rows (unfold total_pages in omega arith),
  )

  -- A page of the dashboard from the first on, even one past the last page, shows a row at least when
  -- the table has one, and ten at most; the same for the artifacts page and fifteen.
  pub length-page_rows :
      (page : ℕ) (rows : List A)
      → 1 ≤ page
      → 1 ≤ length rows
      → (1 ≤ length (page_rows 10 page rows))
        × (length (page_rows 10 page rows) ≤ 10)
        × (1 ≤ length (page_rows 15 page rows))
        × (length (page_rows 15 page rows) ≤ 15)
  unfolding safe_page total_pages
  length-page_rows page rows h k =
      let e = length-page_rows_within 10 page rows in
      let f = length-page_rows_within 15 page rows in
      (omega (arith, e), omega (arith, e), omega (arith, f), omega (arith, f))

-- ===== src/Tables/Pages/Buttons.antt =====
-- The page buttons of a table, and the pages that they stand for.
use project_hawkeye.Base.{ℕ, suc, ◌-◌, Bool, false, List, [], ◌∷◌, ◌++◌, ◌==◌, ◌||◌}
use project_hawkeye.Tables.Pages.{Button, dots, number, numbers}

-- The pages that a row of buttons stands for: "..." for those between its neighbours.
abbrev pub pages_of : ℕ → List Button → List ℕ
pages_of before [] = []
pages_of before (dots ∷ []) = []
pages_of before (dots ∷ dots ∷ bs) = pages_of before (dots ∷ bs)
pages_of before (dots ∷ number p ∷ bs) = numbers (suc before) (p - suc before) ++ p ∷ pages_of p bs
pages_of before (number p ∷ bs) = p ∷ pages_of p bs

-- Whether a page stands among the buttons by its number
abbrev pub shows : ℕ → List Button → Bool
shows p [] = false
shows p (dots ∷ bs) = shows p bs
shows p (number q ∷ bs) = p == q || shows p bs

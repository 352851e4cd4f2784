-- ===== src/Editor/Numbering.antt =====
-- The numbers of the editor's checkpoints, its active checkpoint, and its tags.
use project_hawkeye.Base.{
  ℕ, zero, suc, ◌+◌, ◌-◌, ◌≤◌, ◌<◌, min, String, true, false, List, [], ◌∷◌, ◌++◌, map, Option,
  none, some, length, length-append, if◌then◌else◌, ltb, ◌≡◌, refl, sym, ap, ◌∙◌, arith, Bool-cases,
  inl, inr, ◌||◌, eq_iff,
}
use project_hawkeye.Base.Strings.{is_filled, contains, contains-append}
use project_hawkeye.Base.Strings
use project_hawkeye.Editor.{
  Checkpoint, Steps, Patch, patch_at, without, label, renumber, load_checkpoints, add_checkpoint,
  update_checkpoint, remove_checkpoint, Edit, loaded, added, updated, removed, edit, edits, add_tag,
}

abbrev pub checkpoint_ids : List Checkpoint → List String
checkpoint_ids = map (λ (c : Checkpoint). c.id)

-- The active checkpoint is one of them; there is none only when there are no checkpoints.
abbrev pub IsActiveIn : List Checkpoint → Option ℕ → Type 0
IsActiveIn cs none = length cs ≡ 0
IsActiveIn cs (some i) = i < length cs

module _ (digits : ℕ → String) where
  -- `count` labels from a number on
  abbrev pub labels : ℕ → ℕ → List String
  labels n zero = []
  labels n (suc count) = label digits n ∷ labels (suc n) count

  abbrev pub IsNumbered : Steps → Type 0
  IsNumbered s =
      (checkpoint_ids s.checkpoints ≡ labels 1 (length s.checkpoints))
      × IsActiveIn s.checkpoints s.active_checkpoint

  checkpoint_ids-renumber :
      (n : ℕ) (cs : List Checkpoint)
      → checkpoint_ids (renumber digits n cs) ≡ labels n (length (renumber digits n cs))
  unfolding renumber
  checkpoint_ids-renumber n [] = refl
  checkpoint_ids-renumber n (c ∷ cs) = ap (label digits n ∷◌) (checkpoint_ids-renumber (suc n) cs)

  checkpoint_ids-patch_at :
      (i : ℕ) (p : Patch) (cs : List Checkpoint)
      → checkpoint_ids (patch_at i p cs) ≡ checkpoint_ids cs
  unfolding patch_at
  checkpoint_ids-patch_at i p [] = refl
  checkpoint_ids-patch_at zero p (c ∷ cs) = refl
  checkpoint_ids-patch_at (suc i) p (c ∷ cs) = ap (c.id ∷◌) (checkpoint_ids-patch_at i p cs)

  length-patch_at :
      (i : ℕ) (p : Patch) (cs : List Checkpoint) → length (patch_at i p cs) ≡ length cs
  unfolding patch_at
  length-patch_at i p [] = refl
  length-patch_at zero p (c ∷ cs) = refl
  length-patch_at (suc i) p (c ∷ cs) = ap suc (length-patch_at i p cs)

  labels-snoc :
      (n count : ℕ) → labels n count ++ label digits (count + n) ∷ [] ≡ labels n (suc count)
  labels-snoc n zero = let e : 0 + n ≡ n = omega arith in ap (λ k. label digits k ∷ []) e
  labels-snoc n (suc count) =
      let e : suc count + n ≡ count + suc n = omega arith in
      rw e (ap (label digits n ∷◌) (labels-snoc (suc n) count))

  checkpoint_ids-snoc :
      (cs : List Checkpoint) (c : Checkpoint)
      → checkpoint_ids (cs ++ c ∷ []) ≡ checkpoint_ids cs ++ c.id ∷ []
  checkpoint_ids-snoc [] c = refl
  checkpoint_ids-snoc (x ∷ cs) c = ap (x.id ∷◌) (checkpoint_ids-snoc cs c)

  IsActiveIn-of_length :
      (cs ds : List Checkpoint) (active : Option ℕ)
      → length cs ≡ length ds
      → IsActiveIn cs active
      → IsActiveIn ds active
  IsActiveIn-of_length cs ds none e h = omega arith
  IsActiveIn-of_length cs ds (some i) e h = omega arith

  IsActiveIn-of_first :
      (cs : List Checkpoint) (i : ℕ)
      → i ≤ length cs - 1
      → IsActiveIn cs (if ltb 0 (length cs) then some i else none)
  IsActiveIn-of_first [] i h = refl
  IsActiveIn-of_first (c ∷ cs) i h =
      let positive : ltb 0 (suc (length cs)) ≡ true = ground arith in rw positive (omega arith)

  edit-IsNumbered : (e : Edit digits) (s : Steps) → IsNumbered s → IsNumbered (edit digits e s)
  unfolding edit load_checkpoints add_checkpoint update_checkpoint remove_checkpoint
  edit-IsNumbered (loaded cs) s h =
      (checkpoint_ids-renumber 1 cs, IsActiveIn-of_first (renumber digits 1 cs) 0 (omega arith))
  edit-IsNumbered added s (h, k) =
      let count = length s.checkpoints in
      let c : Checkpoint = record {
        id = label digits (count + 1);
        description = "";
        success_signal = "";
      } in
      let more = length-append s.checkpoints (c ∷ []) in
      let one : length (s.checkpoints ++ c ∷ []) ≡ suc count = omega (arith, more) in
      (
        checkpoint_ids-snoc s.checkpoints c
            ∙ ap (◌++ label digits (count + 1) ∷ []) h
            ∙ labels-snoc 1 count
            ∙ ap (labels 1) (sym one),
        omega (arith, one),
      )
  edit-IsNumbered (updated i p) s (h, k) = (
    checkpoint_ids-patch_at i p s.checkpoints
        ∙ h
        ∙ ap (labels 1) (sym (length-patch_at i p s.checkpoints)),
    IsActiveIn-of_length s.checkpoints (patch_at i p s.checkpoints) s.active_checkpoint
        (sym (length-patch_at i p s.checkpoints)) k,
  )
  edit-IsNumbered (removed i) s h = (
    checkpoint_ids-renumber 1 (without i s.checkpoints),
    IsActiveIn-of_first (renumber digits 1 (without i s.checkpoints))
        (min i (length (renumber digits 1 (without i s.checkpoints)) - 1)) (omega arith),
  )

  -- When the checkpoints are labelled S1, S2, … in their order, and one of them is active unless there
  -- are none, then the same holds after any loads, additions, updates and removals, at any index.
  pub edits-IsNumbered :
      (es : List (Edit digits)) (s : Steps) → IsNumbered s → IsNumbered (edits digits es s)
  unfolding edits
  edits-IsNumbered [] s h = h
  edits-IsNumbered (e ∷ es) s h = edits-IsNumbered es (edit digits e s) (edit-IsNumbered e s h)

snoc-Distinct :
    (k : String) (xs : List String)
    → contains k xs ≡ false
    → Strings.Distinct xs
    → Strings.Distinct (xs ++ k ∷ [])
unfolding contains
snoc-Distinct k [] h d = (refl, tt)
snoc-Distinct k (x ∷ xs) h (new, d) =
    ground (arith, contains-append x xs (k ∷ []), eq_iff k x, eq_iff x k, snoc-Distinct k xs)

snoc-contains : (k : String) (xs : List String) → contains k (xs ++ k ∷ []) ≡ true
unfolding contains
snoc-contains k xs = ground (arith, contains-append k xs (k ∷ []), eq_iff k k)

-- Adding a tag keeps the tags distinct, and the new list has the trimmed input unless that is empty.
pub add_tag_lem :
    (trim : String → String) (input : String) (tags : List String)
    → Strings.Distinct tags
    → Strings.Distinct (add_tag trim input tags)
      × (contains (trim input) (add_tag trim input tags)
          ≡ is_filled (trim input) || contains (trim input) tags)
unfolding add_tag
add_tag_lem trim input tags d = elim (Bool-cases (is_filled (trim input))) [
  | inl filled ↦ elim (Bool-cases (contains (trim input) tags)) [
    | inl there ↦ rw (filled, there) (d, there)
    | inr new ↦
        rw (filled, new) (snoc-Distinct (trim input) tags new d, snoc-contains (trim input) tags)
  ]
  | inr empty ↦ rw empty (d, refl)
]

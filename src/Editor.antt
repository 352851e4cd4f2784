-- ===== src/Editor.antt =====
-- The checkpoints and the tags of the test case editor,
-- Frontend/hawkeye-web/src/app/app/(workspace)/[projectId]/test-cases/[id]/page.tsx.
pub mod Headers
pub mod Numbering
pub mod Words
pub mod Spec
pub mod Save
pub mod Checks
use project_hawkeye.Base.{
  ℕ, zero, suc, ◌+◌, ◌-◌, min, String, Bool, true, not, ◌&&◌, List, [], ◌∷◌, ◌++◌, Option, none,
  some, length, if◌then◌else◌, ◌==◌, ltb, leb, or_else, every,
}
use project_hawkeye.Base.Strings.{is_filled, contains, ◌+++◌}

-- The fields that the editor shows; the others of a checkpoint pass through it unread.
pub record Checkpoint : Type 0 where
  pub id : String
  pub description : String
  pub success_signal : String

pub record Steps : Type 0 where
  pub checkpoints : List Checkpoint
  pub active_checkpoint : Option ℕ

-- `Partial<Checkpoint>`, as the two fields of the form give it
pub record Patch : Type 0 where
  pub description : Option String
  pub success_signal : Option String

abbrev pub patched : Patch → Checkpoint → Checkpoint
patched p c = record c {
  description = or_else p.description c.description;
  success_signal = or_else p.success_signal c.success_signal;
}

-- `checkpoints.map((c, j) => (j === i ? { ...c, ...patch } : c))`
unfoldable pub patch_at : ℕ → Patch → List Checkpoint → List Checkpoint
patch_at i p [] = []
patch_at zero p (c ∷ cs) = patched p c ∷ cs
patch_at (suc i) p (c ∷ cs) = c ∷ patch_at i p cs

-- `checkpoints.filter((_, j) => j !== i)`
unfoldable pub without : ℕ → List Checkpoint → List Checkpoint
without i [] = []
without zero (c ∷ cs) = cs
without (suc i) (c ∷ cs) = c ∷ without i cs

-- `digits` is the text of a number.
module _ (digits : ℕ → String) where
  abbrev pub label : ℕ → String
  label n = "S" +++ digits n

  -- `.map((cp, j) => ({ ...cp, id: `S${j + 1}` }))`, from a number on
  unfoldable pub renumber : ℕ → List Checkpoint → List Checkpoint
  renumber n [] = []
  renumber n (c ∷ cs) = record c { id = label n } ∷ renumber (suc n) cs

  -- The end of `loadTc`
  unfoldable pub load_checkpoints : List Checkpoint → Steps
  load_checkpoints cs = record {
    checkpoints = renumber 1 cs;
    active_checkpoint = if ltb 0 (length (renumber 1 cs)) then some 0 else none;
  }

  unfoldable pub add_checkpoint : Steps → Steps
  add_checkpoint s =
      let next =
        s.checkpoints
        ++ record { id = label (length s.checkpoints + 1); description = ""; success_signal = "" }
          ∷ [] in
      record { checkpoints = next; active_checkpoint = some (length next - 1) }

  unfoldable pub update_checkpoint : ℕ → Patch → Steps → Steps
  update_checkpoint i p s = record s { checkpoints = patch_at i p s.checkpoints }

  unfoldable pub remove_checkpoint : ℕ → Steps → Steps
  remove_checkpoint i s =
      let next = renumber 1 (without i s.checkpoints) in
      record {
        checkpoints = next;
        active_checkpoint = if ltb 0 (length next) then some (min i (length next - 1)) else none;
      }

  -- What the tab of the steps does.
  pub data Edit : Type 0 where
    loaded : (checkpoints : List Checkpoint) → Edit
    added : Edit
    updated : (index : ℕ) (patch : Patch) → Edit
    removed : (index : ℕ) → Edit

  unfoldable pub edit : Edit → Steps → Steps
  edit (loaded cs) s = load_checkpoints cs
  edit added s = add_checkpoint s
  edit (updated i p) s = update_checkpoint i p s
  edit (removed i) s = remove_checkpoint i s

  unfoldable pub edits : List Edit → Steps → Steps
  edits [] s = s
  edits (e ∷ rest) s = edits rest (edit e s)

module _ (trim : String → String) where
  -- `addTag`
  unfoldable pub add_tag : String → List String → List String
  add_tag input tags =
      if is_filled (trim input) && not (contains (trim input) tags)
      then tags ++ trim input ∷ []
      else tags

  -- `stepsValid`
  unfoldable pub steps_valid : List Checkpoint → Bool
  steps_valid cs =
      ltb 0 (length cs)
      && every (λ c. is_filled (trim c.description) && is_filled (trim c.success_signal)) cs

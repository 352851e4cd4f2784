-- ===== src/Editor/Words.antt =====
-- `wordCount` of Frontend/hawkeye-web/src/components/app/rich-text-editor.tsx.
pub mod Runs
use Prim.Native.Char.{code}
use Prim.Native.String
use project_hawkeye.Base.{
  ℕ, zero, suc, String, Bool, true, false, List, [], ◌∷◌, Option, none, some, if◌then◌else◌, ◌==◌,
  count_by,
}
use project_hawkeye.Base.Chars.{is_space, trim, split, index_of}
use project_hawkeye.Base.Strings.{is_filled}

-- `s.replace(/o[^c]+c/g, " ")` for the characters `o` and `c`; the number counts the characters left
-- of a match.
module _ (o c : ℕ) where
  unfoldable pub blank_spans : ℕ → String → String
  unfolding index_of
  blank_spans left String.[] = ""
  blank_spans (suc left) (String.◌∷◌ x s) = blank_spans left s
  blank_spans zero (String.◌∷◌ x s) = elim (if code x == o then index_of c s else none) [
    | some (suc i) ↦ String.◌∷◌ " " (blank_spans (suc (suc i)) s)
    | _ ↦ String.◌∷◌ x (blank_spans zero s)
  ]

-- `s.replace(/\s+/g, " ")`; the flag says that the last character was white space.
unfoldable pub collapse : Bool → String → String
unfolding is_space
collapse inside String.[] = ""
collapse inside (String.◌∷◌ x s) =
    let rest = collapse (is_space (code x)) s in
    if is_space (code x) then (if inside then rest else String.◌∷◌ " " rest) else String.◌∷◌ x rest

-- The text without tags and entities
unfoldable pub visible : String → String
unfolding blank_spans
visible html = blank_spans b'&' b';' zero (blank_spans b'<' b'>' zero html)

unfoldable pub words_of : String → ℕ
words_of text = if is_filled text then count_by is_filled (split b' ' text) else 0

-- `wordCount`
unfoldable pub word_count : String → ℕ
unfolding visible collapse words_of trim split
word_count html = words_of (trim (collapse false (visible html)))

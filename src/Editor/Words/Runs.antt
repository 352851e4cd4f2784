-- ===== src/Editor/Words/Runs.antt =====
-- The words that `wordCount` counts.
use Prim.Native.Char.{Char, code}
use project_hawkeye.Base.{
  ℕ, ◌+◌, String, Bool, true, false, not, ◌&&◌, List, [], ◌∷◌, ◌≡◌, refl, ap, ◌∙◌, arith,
  if◌then◌else◌, ◌==◌, count_by, Bool-cases, inl, inr,
}
use project_hawkeye.Base.Chars.{
  is_space, trim, trim_start, trim_end, onto_trimmed, onto_first, split,
}
use project_hawkeye.Base.Chars.Laws.{is_filled-cons}
use project_hawkeye.Base.Strings.{is_filled}
use project_hawkeye.Editor.Words.{collapse, visible, words_of, word_count}

-- The places where a character outside the set stands first or behind one of the set; the flag says
-- that the last character was in the set.
abbrev runs : (ℕ → Bool) → Bool → String → ℕ
runs space after String.[] = 0
runs space after (String.◌∷◌ c s) =
    (if after && not (space (code c)) then 1 else 0) + runs space (space (code c)) s

-- The number of words: of the longest pieces without white space.
abbrev pub words : String → ℕ
words = runs is_space true

abbrev is_blank : ℕ → Bool
is_blank c = c == b' '

abbrev rest_filled : List String → ℕ
rest_filled [] = 0
rest_filled (x ∷ xs) = count_by is_filled xs

count-onto_first :
    (c : Char) (xs : List String)
    → (count_by is_filled (onto_first c xs) ≡ 1 + rest_filled xs)
      × (rest_filled (onto_first c xs) ≡ rest_filled xs)
unfolding onto_first
count-onto_first c [] = (ground (arith, is_filled-cons c ""), refl)
count-onto_first c (x ∷ xs) = (ground (arith, is_filled-cons c x), refl)

-- The filled parts of a text cut at the spaces, those behind the first part first
filled-split :
    (s : String)
    → (count_by is_filled (split b' ' s) ≡ runs is_blank true s)
      × (rest_filled (split b' ' s) ≡ runs is_blank false s)
unfolding split
filled-split String.[] = (refl, refl)
filled-split (String.◌∷◌ c s) =
    let (all, behind) = filled-split s in
    let (all', behind') = count-onto_first c (split b' ' s) in
    elim (Bool-cases (is_blank (code c))) [
      | inl blank ↦ rw blank (omega arith, omega arith)
      | inr other ↦ rw other (omega arith, omega arith)
    ]

words_of-runs : (s : String) → words_of s ≡ runs is_blank true s
unfolding words_of
words_of-runs String.[] = refl
words_of-runs (String.◌∷◌ c s) = rw is_filled-cons (filled-split (String.◌∷◌ c s)).0

-- All white space of the text is the space.
abbrev HasSpaces : String → Type 0
HasSpaces String.[] = Unit
HasSpaces (String.◌∷◌ c s) = (is_space (code c) ≡ is_blank (code c)) × HasSpaces s

is_blank_of_other : (c : ℕ) → is_space c ≡ false → is_space c ≡ is_blank c
unfolding is_space
is_blank_of_other c h = ground arith

collapse-HasSpaces : (inside : Bool) (s : String) → HasSpaces (collapse inside s)
unfolding collapse
collapse-HasSpaces inside String.[] = tt
collapse-HasSpaces inside (String.◌∷◌ c s) = elim (Bool-cases (is_space (code c))) [
  | inr other ↦ rw other (is_blank_of_other (code c) other, collapse-HasSpaces false s)
  | inl space ↦ rw space (elim (Bool-cases inside) [
    | inl again ↦ rw again (collapse-HasSpaces true s)
    | inr first ↦ rw first (unfold is_space in refl, collapse-HasSpaces true s)
  ])
]

trim_start-HasSpaces : (s : String) → HasSpaces s → HasSpaces (trim_start s)
unfolding trim_start
trim_start-HasSpaces String.[] h = tt
trim_start-HasSpaces (String.◌∷◌ c s) (one, h) = elim (Bool-cases (is_space (code c))) [
  | inl space ↦ rw space (trim_start-HasSpaces s h)
  | inr other ↦ rw other (one, h)
]

onto_trimmed-HasSpaces :
    (c : Char) (s : String) → HasSpaces (String.◌∷◌ c s) → HasSpaces (onto_trimmed c s)
unfolding onto_trimmed
onto_trimmed-HasSpaces c String.[] h = elim (Bool-cases (is_space (code c))) [
  | inl space ↦ rw space tt
  | inr other ↦ rw other h
]
onto_trimmed-HasSpaces c (String.◌∷◌ d s) h = h

trim_end-HasSpaces : (s : String) → HasSpaces s → HasSpaces (trim_end s)
unfolding trim_end
trim_end-HasSpaces String.[] h = tt
trim_end-HasSpaces (String.◌∷◌ c s) (one, h) =
    onto_trimmed-HasSpaces c (trim_end s) (one, trim_end-HasSpaces s h)

runs-of_spaces :
    (after : Bool) (s : String) → HasSpaces s → runs is_blank after s ≡ runs is_space after s
runs-of_spaces after String.[] h = refl
runs-of_spaces after (String.◌∷◌ c s) (one, h) = rw one (
    ap ((if after && not (is_blank (code c)) then 1 else 0) +◌)
      (runs-of_spaces (is_blank (code c)) s h))

spaces_is : is_space (code " ") ≡ true
unfolding is_space
spaces_is = refl

-- White space only joins white space that stood there.
runs-collapse :
    (inside after : Bool) (s : String)
    → inside && not after ≡ false
    → runs is_space after (collapse inside s) ≡ runs is_space after s
unfolding collapse
runs-collapse inside after String.[] h = refl
runs-collapse inside after (String.◌∷◌ c s) h = elim (Bool-cases (is_space (code c))) [
  | inr other ↦ rw other (rw other (ground (arith, runs-collapse false false s)))
  | inl space ↦ rw space (elim (Bool-cases inside) [
    | inl again ↦ rw again (ground (arith, runs-collapse true true s))
    | inr first ↦ rw first (ground (arith, runs-collapse true true s, spaces_is))
  ])
]

runs-trim_start : (s : String) → runs is_space true (trim_start s) ≡ runs is_space true s
unfolding trim_start
runs-trim_start String.[] = refl
runs-trim_start (String.◌∷◌ c s) = ground (arith, runs-trim_start s)

runs-onto_trimmed :
    (after : Bool) (c : Char) (s : String)
    → runs is_space after (onto_trimmed c s) ≡ runs is_space after (String.◌∷◌ c s)
unfolding onto_trimmed
runs-onto_trimmed after c String.[] = elim (Bool-cases (is_space (code c))) [
  | inl space ↦ rw space (ground arith)
  | inr other ↦ rw other (ground arith)
]
runs-onto_trimmed after c (String.◌∷◌ d s) = refl

runs-trim_end :
    (after : Bool) (s : String) → runs is_space after (trim_end s) ≡ runs is_space after s
unfolding trim_end
runs-trim_end after String.[] = refl
runs-trim_end after (String.◌∷◌ c s) =
    runs-onto_trimmed after c (trim_end s)
    ∙ ap ((if after && not (is_space (code c)) then 1 else 0) +◌)
        (runs-trim_end (is_space (code c)) s)

-- `wordCount` is the number of words, the longest pieces without white space, of the text in which
-- each tag and entity is a space.
pub word_count-words : (html : String) → word_count html ≡ words (visible html)
unfolding word_count trim
word_count-words html =
    let text = collapse false (visible html) in
    words_of-runs (trim_end (trim_start text))
    ∙ runs-of_spaces true (trim_end (trim_start text)) (
        trim_end-HasSpaces (trim_start text)
          (trim_start-HasSpaces text (collapse-HasSpaces false (visible html))))
    ∙ runs-trim_end true (trim_start text)
    ∙ runs-trim_start text
    ∙ runs-collapse false true (visible html) refl

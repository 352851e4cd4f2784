-- ===== src/Base/Chars/Laws.antt =====
-- Laws of `trim`, `split` and `join`, `indexOf` and `slice`.
use Prim.Native.Char.{Char, code}
use Prim.Native.Nat.{ℕ, zero, suc}
use Prim.Native.String.compare
use Prim.Native.String.{String}
use mathlib.Core.Bool.{Bool, true, false, not, ◌||◌}
use mathlib.Core.List.{List, [], ◌∷◌}
use mathlib.Core.Logic.{inl, inr}
use mathlib.Core.Option.{some}
use mathlib.Core.Path.{◌≡◌, refl, sym, ap, ◌∙◌}
use native.Mathlib.Omega.{arith}
use text.Mathlib.Text.{is_eq, ◌==◌ as str_eq}
use text.Mathlib.TextLemmas.{nil-append, cons-append}
use project_hawkeye.Base.Chars.{
  is_space, trim_start, onto_trimmed, trim_end, trim, has_char, onto_first, split, join, index_of,
  slice_from, behind,
}
use project_hawkeye.Base.Strings.{◌+++◌, slice, is_filled}
use project_hawkeye.Base.Tests.{if◌then◌else◌, ◌==◌, ltb, Bool-cases}

has_char-onto_trimmed :
    (d : ℕ) (c : Char) (s : String)
    → has_char d (String.◌∷◌ c s) ≡ false
    → has_char d (onto_trimmed c s) ≡ false
unfolding has_char onto_trimmed
has_char-onto_trimmed d c String.[] h = elim (Bool-cases (is_space (code c))) [
  | inl t ↦ rw t refl
  | inr f ↦ rw f h
]
has_char-onto_trimmed d c (String.◌∷◌ e s) h = h

has_char-trim_end : (d : ℕ) (s : String) → has_char d s ≡ false → has_char d (trim_end s) ≡ false
unfolding has_char trim_end
has_char-trim_end d String.[] h = h
has_char-trim_end d (String.◌∷◌ c s) h =
    has_char-onto_trimmed d c (trim_end s) (ground (arith, has_char-trim_end d s))

has_char-trim_start :
    (d : ℕ) (s : String) → has_char d s ≡ false → has_char d (trim_start s) ≡ false
unfolding has_char trim_start
has_char-trim_start d String.[] h = h
has_char-trim_start d (String.◌∷◌ c s) h = ground (arith, has_char-trim_start d s)

-- What a text lacks, it lacks when it is trimmed.
pub has_char-trim : (d : ℕ) (s : String) → has_char d s ≡ false → has_char d (trim s) ≡ false
unfolding trim
has_char-trim d s h = has_char-trim_end d (trim_start s) (has_char-trim_start d s h)

onto_trimmed-onto_trimmed :
    (c : Char) (s : String) → trim_end s ≡ s → trim_end (onto_trimmed c s) ≡ onto_trimmed c s
unfolding trim_end onto_trimmed
onto_trimmed-onto_trimmed c String.[] h = elim (Bool-cases (is_space (code c))) [
  | inl t ↦ rw t refl
  | inr f ↦ rw f (rw f refl)
]
onto_trimmed-onto_trimmed c (String.◌∷◌ d s) h = rw (h, onto_trimmed)

trim_end_idem : (s : String) → trim_end (trim_end s) ≡ trim_end s
unfolding trim_end
trim_end_idem String.[] = refl
trim_end_idem (String.◌∷◌ c s) = onto_trimmed-onto_trimmed c (trim_end s) (trim_end_idem s)

-- No white space at the front.
abbrev starts_filled : String → Bool
starts_filled String.[] = true
starts_filled (String.◌∷◌ c s) = if is_space (code c) then false else true

starts_filled-trim_start : (s : String) → starts_filled (trim_start s) ≡ true
unfolding trim_start
starts_filled-trim_start String.[] = refl
starts_filled-trim_start (String.◌∷◌ c s) = ground (arith, starts_filled-trim_start s)

starts_filled-onto_trimmed :
    (c : Char) (s : String)
    → starts_filled (String.◌∷◌ c s) ≡ true
    → starts_filled (onto_trimmed c s) ≡ true
unfolding onto_trimmed
starts_filled-onto_trimmed c String.[] h = ground arith
starts_filled-onto_trimmed c (String.◌∷◌ d s) h = h

starts_filled-trim_end : (s : String) → starts_filled s ≡ true → starts_filled (trim_end s) ≡ true
unfolding trim_end
starts_filled-trim_end String.[] h = refl
starts_filled-trim_end (String.◌∷◌ c s) h = starts_filled-onto_trimmed c (trim_end s) h

trim_start_of_filled : (s : String) → starts_filled s ≡ true → trim_start s ≡ s
unfolding trim_start
trim_start_of_filled String.[] h = refl
trim_start_of_filled (String.◌∷◌ c s) h = ground arith

-- A trimmed text is its own trim.
pub trim_idem : (s : String) → trim (trim s) ≡ trim s
unfolding trim
trim_idem s =
    ap trim_end (
      trim_start_of_filled (trim_end (trim_start s))
        (starts_filled-trim_end (trim_start s) (starts_filled-trim_start s)))
    ∙ trim_end_idem (trim_start s)

-- A space in front is trimmed away.
pub trim_of_space : (s : String) → trim (" " +++ s) ≡ trim s
unfolding trim
trim_of_space s = rw cons-append (rw nil-append refl)

onto_first-cons :
    (c : Char) (x : String) (xs : List String) → onto_first c (x ∷ xs) ≡ String.◌∷◌ c x ∷ xs
unfolding onto_first
onto_first-cons c x xs = refl

split_of_lacking : (d : ℕ) (x : String) → has_char d x ≡ false → split d x ≡ x ∷ []
unfolding split has_char
split_of_lacking d String.[] h = refl
split_of_lacking d (String.◌∷◌ c x) h = ground (arith, split_of_lacking d x)

module _ (d : ℕ) (c : Char) (is : (code c == d) ≡ true) where
  pub split-append :
      (x s : String) → has_char d x ≡ false → split d (x +++ String.◌∷◌ c s) ≡ x ∷ split d s
  unfolding split has_char
  split-append String.[] s h = rw nil-append (ground arith)
  split-append (String.◌∷◌ e x) s h = rw cons-append (ground (arith, split-append x s))

-- Every text of the list lacks the character.
abbrev pub LackAll : ℕ → List String → Type 0
LackAll d [] = Unit
LackAll d (x ∷ xs) = (has_char d x ≡ false) × LackAll d xs

-- The parts of a joined text are those that were joined, if they lack the separator.
pub split-join :
    (d : ℕ) (c : Char) (x : String) (xs : List String)
    → (code c == d) ≡ true
    → LackAll d (x ∷ xs)
    → split d (join (String.◌∷◌ c "") (x ∷ xs)) ≡ x ∷ xs
unfolding join
split-join d c x [] is (h, t) = split_of_lacking d x h
split-join d c x (y ∷ xs) is (h, t) = rw cons-append (
    rw nil-append (
      split-append d c is x (join (String.◌∷◌ c "") (y ∷ xs)) h
      ∙ ap (x ∷◌) (split-join d c y xs is t)))

LackAll-onto_first :
    (d : ℕ) (c : Char) (xs : List String)
    → (code c == d) ≡ false
    → LackAll d xs
    → LackAll d (onto_first c xs)
unfolding onto_first has_char
LackAll-onto_first d c [] other h = (ground arith, tt)
LackAll-onto_first d c (x ∷ xs) other (h, t) = (ground arith, t)

-- The parts of a text lack the separator.
pub LackAll-split : (d : ℕ) (s : String) → LackAll d (split d s)
unfolding split has_char
LackAll-split d String.[] = (refl, tt)
LackAll-split d (String.◌∷◌ c s) = elim (Bool-cases (code c == d)) [
  | inl is ↦ rw is (refl, LackAll-split d s)
  | inr other ↦ rw other (LackAll-onto_first d c (split d s) other (LackAll-split d s))
]

pub cons-eq-nil : (c : Char) (s : String) → str_eq (String.◌∷◌ c s) "" ≡ false
cons-eq-nil c s = λ i. is_eq (compare.cons-nil c s i)

pub positive : (n : ℕ) → ltb 0 (suc n) ≡ true
positive n = ground arith

-- Where a text is cut at the first of its separators.
module _ (d : ℕ) (c : Char) (is : (code c == d) ≡ true) where
  pub cut-append :
      (k s : String)
      → has_char d k ≡ false
      → (i : ℕ) × (index_of d (k +++ String.◌∷◌ c s) ≡ some i)
        × (slice i (k +++ String.◌∷◌ c s) ≡ k)
        × (slice_from i (k +++ String.◌∷◌ c s) ≡ String.◌∷◌ c s)
        × (slice_from (suc i) (k +++ String.◌∷◌ c s) ≡ s)
        × (ltb 0 i ≡ not (str_eq k ""))
  unfolding has_char index_of slice slice_from
  cut-append String.[] s h = rw nil-append (0, ground arith, refl, refl, refl, refl)
  cut-append (String.◌∷◌ e k) s h =
      let (i, found, before, at_sep, behind, later) = cut-append k s (ground arith) in
      rw cons-append (
        suc i,
        ground arith,
        ap (String.◌∷◌ e) before,
        at_sep,
        behind,
        positive i ∙ sym (ap not (cons-eq-nil e k)),
      )

-- What stands before the first separator lacks it.
pub slice-index_of :
    (d : ℕ) (s : String) (i : ℕ) → index_of d s ≡ some i → has_char d (slice i s) ≡ false
unfolding has_char index_of slice
slice-index_of d String.[] i h = cc
slice-index_of d (String.◌∷◌ c s) zero h = refl
slice-index_of d (String.◌∷◌ c s) (suc i) h = ground (arith, slice-index_of d s i)

-- A part of a text lacks what the text lacks.
pub has_char-slice :
    (d : ℕ) (i : ℕ) (s : String) → has_char d s ≡ false → has_char d (slice i s) ≡ false
unfolding has_char slice
has_char-slice d zero s h = refl
has_char-slice d (suc i) String.[] h = refl
has_char-slice d (suc i) (String.◌∷◌ c s) h = ground (arith, has_char-slice d i s)

pub has_char-slice_from :
    (d : ℕ) (i : ℕ) (s : String) → has_char d s ≡ false → has_char d (slice_from i s) ≡ false
unfolding has_char slice_from
has_char-slice_from d zero s h = h
has_char-slice_from d (suc i) String.[] h = refl
has_char-slice_from d (suc i) (String.◌∷◌ c s) h = ground (arith, has_char-slice_from d i s)

pub has_char-append : (d : ℕ) (x y : String) → has_char d (x +++ y) ≡ has_char d x || has_char d y
unfolding has_char
has_char-append d String.[] y = rw nil-append refl
has_char-append d (String.◌∷◌ c x) y = rw cons-append (ground (arith, has_char-append d x y))

-- A prefix is taken off.
pub behind-append : (p s : String) → behind p (p +++ s) ≡ some s
unfolding behind
behind-append String.[] s = rw nil-append refl
behind-append (String.◌∷◌ c p) s = rw cons-append (ground (arith, behind-append p s))

pub is_filled-cons : (c : Char) (s : String) → is_filled (String.◌∷◌ c s) ≡ true
is_filled-cons c s = ap not (cons-eq-nil c s)

pub is_filled-cons_append : (c : Char) (s t : String) → is_filled (String.◌∷◌ c s +++ t) ≡ true
is_filled-cons_append c s t = ap is_filled (cons-append c s t) ∙ is_filled-cons c (s +++ t)

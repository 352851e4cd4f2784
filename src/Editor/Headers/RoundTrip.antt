-- ===== src/Editor/Headers/RoundTrip.antt =====
-- What `parseHeaders` makes of the text of `formatHeaders`, and of any text.
use mathlib.Core.List.{append-nil, append_assoc}
use text.Mathlib.TextLemmas.{cons-append}
use project_hawkeye.Base.{
  ℕ, suc, String, false, List, [], ◌∷◌, ◌++◌, Option, none, some, ◌≡◌, refl, sym, ap, ◌∙◌, arith,
  if◌then◌else◌, ltb, Bool-cases, eq_iff, str_eq, inl, inr,
}
use project_hawkeye.Base.Chars.{trim, split, join, index_of, slice_from, has_char}
use project_hawkeye.Base.Chars.Laws.{
  trim_idem, trim_of_space, LackAll, split-join, LackAll-split, cut-append, slice-index_of,
  has_char-slice, has_char-slice_from, has_char-append, has_char-trim,
}
use project_hawkeye.Base.Dict
use project_hawkeye.Base.Dict.{Dict}
use project_hawkeye.Base.Strings.{slice, ◌+++◌}
use project_hawkeye.Editor.Headers.{
  add_at, add_line, add_lines, parse_headers, header_line, header_lines, format_headers,
}

-- A name and a value as a line can carry them
abbrev pub FitsLine : String × String → Type 0
FitsLine (k, v) =
    (has_char b':' k ≡ false)
    × (has_char b'\n' k ≡ false)
    × (has_char b'\n' v ≡ false)
    × (trim k ≡ k)
    × (trim v ≡ v)

abbrev pub FitLines : Dict String → Type 0
FitLines [] = Unit
FitLines (entry ∷ h) = FitsLine entry × FitLines h

-- A line of `formatHeaders` puts its header, unless the name is empty.
add_line-header_line :
    (k v : String) (out : Dict String)
    → FitsLine (k, v)
    → add_line (header_line (k, v)) out ≡ (if str_eq k "" then out else Dict.set k v out)
unfolding add_line add_at
add_line-header_line k v out (colon, line, line', key, value) =
    let rest : String = " " +++ v in
    let (i, found, before, at_sep, behind, later) = cut-append b':' ":" refl k rest colon in
    let same : header_line (k, v) ≡ k +++ String.◌∷◌ ":" rest =
      ap (k +++◌) (cons-append ":" " " v) in
    ap (λ l. add_at (index_of b':' l) l out) same
    ∙ ap (λ o. add_at o (k +++ String.◌∷◌ ":" rest) out) found
    ∙ rw (later, before, behind, trim_of_space v, key, value) (ground arith)

-- The entries of `out` first, then those of `h` whose names are not empty
filled_onto : Dict String → Dict String → Dict String
filled_onto out [] = out
filled_onto out ((k, v) ∷ h) = filled_onto (if str_eq k "" then out else Dict.set k v out) h

add_lines-header_lines :
    (h out : Dict String) → FitLines h → add_lines (header_lines h) out ≡ filled_onto out h
unfolding add_lines filled_onto
add_lines-header_lines [] out fit = refl
add_lines-header_lines ((k, v) ∷ h) out (one, fit) =
    add_lines-header_lines h (add_line (header_line (k, v)) out) fit
    ∙ ap (λ o. filled_onto o h) (add_line-header_line k v out one)

LackAll-header_lines : (h : Dict String) → FitLines h → LackAll b'\n' (header_lines h)
LackAll-header_lines [] fit = tt
LackAll-header_lines ((k, v) ∷ h) ((colon, line, line', key, value), fit) = (
  has_char-append b'\n' k (": " +++ v)
      ∙ rw (line, has_char-append b'\n' ": " v, line') (unfold has_char in refl),
  LackAll-header_lines h fit,
)

-- Every name of `h` is new to `out`.
abbrev pub AreNew : Dict String → Dict String → Type 0
AreNew out [] = Unit
AreNew out ((k, v) ∷ h) = (Dict.lookup k out ≡ none) × AreNew out h

pub set_new :
    (k v : String) (out : Dict String)
    → Dict.lookup k out ≡ none
    → Dict.set k v out ≡ out ++ (k, v) ∷ []
unfolding Dict.lookup Dict.set
set_new k v [] h = refl
set_new k v ((j, w) ∷ out) h = ground (arith, set_new k v out)

lookup-snoc :
    (j k v : String) (out : Dict String)
    → Dict.lookup j out ≡ none
    → str_eq k j ≡ false
    → Dict.lookup j (out ++ (k, v) ∷ []) ≡ none
unfolding Dict.lookup
lookup-snoc j k v [] h other = ground arith
lookup-snoc j k v ((i, w) ∷ out) h other = ground (arith, lookup-snoc j k v out)

pub AreNew-snoc :
    (k v : String) (out h : Dict String)
    → Dict.lookup k h ≡ none
    → AreNew out h
    → AreNew (out ++ (k, v) ∷ []) h
unfolding Dict.lookup
AreNew-snoc k v out [] no_k new = tt
AreNew-snoc k v out ((j, w) ∷ h) no_k (new, rest) = (
  lookup-snoc j k v out new (ground (arith, eq_iff j k, eq_iff k j)),
  AreNew-snoc k v out h (ground arith) rest,
)

filled_onto_lem :
    (out h : Dict String)
    → AreNew out h
    → Dict.Distinct h
    → filled_onto out h ≡ out ++ Dict.delete "" h
unfolding filled_onto Dict.delete
filled_onto_lem out [] new distinct = sym (append-nil out)
filled_onto_lem out ((k, v) ∷ h) (new, rest) (once, distinct) = elim (Bool-cases (str_eq k "")) [
  | inl empty ↦ rw empty (filled_onto_lem out h rest distinct)
  | inr filled ↦ rw filled (
      ap (λ o. filled_onto o h) (set_new k v out new)
      ∙ filled_onto_lem (out ++ (k, v) ∷ []) h (AreNew-snoc k v out h once rest) distinct
      ∙ append_assoc out ((k, v) ∷ []) (Dict.delete "" h))
]

AreNew-nil : (h : Dict String) → AreNew [] h
unfolding Dict.lookup
AreNew-nil [] = tt
AreNew-nil ((k, v) ∷ h) = (refl, AreNew-nil h)

-- `parseHeaders` reads the text of `formatHeaders` back, except for a header of an empty name: for
-- headers of different names without ":", names and values without line feed or white space at
-- their ends.
pub parse_headers-format_headers :
    (h : Dict String)
    → Dict.Distinct h
    → FitLines h
    → parse_headers (format_headers (some h)) ≡ Dict.delete "" h
unfolding parse_headers format_headers join
parse_headers-format_headers [] distinct fit =
    unfold split add_lines add_line index_of add_at Dict.delete in refl
parse_headers-format_headers (entry ∷ h) distinct fit =
    ap (λ lines. add_lines lines [])
      (split-join b'\n' "\n" (header_line entry) (header_lines h) refl
        (LackAll-header_lines (entry ∷ h) fit))
    ∙ add_lines-header_lines (entry ∷ h) [] fit
    ∙ filled_onto_lem [] (entry ∷ h) (AreNew-nil (entry ∷ h)) distinct

FitLines-set :
    (k v : String) (h : Dict String) → FitsLine (k, v) → FitLines h → FitLines (Dict.set k v h)
unfolding Dict.set
FitLines-set k v [] one fit = (one, tt)
FitLines-set k v ((j, w) ∷ h) (a, b, c, d, e) ((a', b', c', d', e'), fit) =
    elim (Bool-cases (str_eq j k)) [
      | inl same ↦ rw same ((a', b', c, d', e), fit)
      | inr other ↦ rw other ((a', b', c', d', e'), FitLines-set k v h (a, b, c, d, e) fit)
    ]

-- What holds of the headers read so far
abbrev IsReadable : Dict String → Type 0
IsReadable h = FitLines h × Dict.Distinct h

add_at-IsReadable :
    (found : Option ℕ) (line : String) (out : Dict String)
    → index_of b':' line ≡ found
    → has_char b'\n' line ≡ false
    → IsReadable out
    → IsReadable (add_at found line out)
unfolding add_at
add_at-IsReadable none line out at_none one readable = readable
add_at-IsReadable (some i) line out at_i one (fit, distinct) = elim (Bool-cases (ltb 0 i)) [
  | inr first ↦ rw first (fit, distinct)
  | inl later ↦
      let name = slice i line in
      let value = slice_from (suc i) line in
      rw later (
        FitLines-set (trim name) (trim value) out
            (
              has_char-trim b':' name (slice-index_of b':' line i at_i),
              has_char-trim b'\n' name (has_char-slice b'\n' i line one),
              has_char-trim b'\n' value (has_char-slice_from b'\n' (suc i) line one),
              trim_idem name,
              trim_idem value,
            )
            fit,
        Dict.set-Distinct (trim name) (trim value) out distinct,
      )
]

add_lines-IsReadable :
    (lines : List String) (out : Dict String)
    → LackAll b'\n' lines
    → IsReadable out
    → IsReadable (add_lines lines out)
unfolding add_lines add_line
add_lines-IsReadable [] out one readable = readable
add_lines-IsReadable (line ∷ rest) out (one, more) readable =
    add_lines-IsReadable rest (add_line line out) more
      (add_at-IsReadable (index_of b':' line) line out refl one readable)

parse_headers-IsReadable : (raw : String) → IsReadable (parse_headers raw)
unfolding parse_headers
parse_headers-IsReadable raw =
    add_lines-IsReadable (split b'\n' raw) [] (LackAll-split b'\n' raw) (tt, tt)

-- Whatever text is typed, writing the headers that were read of it and reading them again gives
-- these headers, less one of an empty name.
pub parse_headers_again :
    (raw : String)
    → parse_headers (format_headers (some (parse_headers raw))) ≡ Dict.delete "" (parse_headers raw)
parse_headers_again raw =
    let (fit, distinct) = parse_headers-IsReadable raw in
    parse_headers-format_headers (parse_headers raw) distinct fit

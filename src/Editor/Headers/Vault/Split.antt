-- ===== src/Editor/Headers/Vault/Split.antt =====
-- What `loadTc` reads of headers that `handleSave` merged.
use mathlib.Core.List.{append-nil, append_assoc}
use project_hawkeye.Base.{
  ℕ, suc, String, true, false, List, [], ◌∷◌, ◌++◌, none, some, ◌≡◌, refl, sym, ap, ◌∙◌,
}
use project_hawkeye.Base.Chars.{trim, has_char}
use project_hawkeye.Base.Chars.Laws.{behind-append, cut-append}
use project_hawkeye.Base.Dict
use project_hawkeye.Base.Dict.{Dict}
use project_hawkeye.Base.Strings.{◌+++◌, is_filled}
use project_hawkeye.Editor.Headers.{header_line, header_lines}
use project_hawkeye.Editor.Headers.RoundTrip.{AreNew, AreNew-snoc, set_new}
use project_hawkeye.Editor.Headers.Vault.{
  VaultHeader, closed_at, closed, vault_ref, vault_text, split_headers, merge,
}

-- A reference to a secret whose name is not empty and has no "}" is read back.
vault_ref-vault_text :
    (secret : String)
    → is_filled secret ≡ true
    → has_char b'}' secret ≡ false
    → vault_ref (vault_text secret) ≡ some secret
unfolding vault_ref closed_at
vault_ref-vault_text secret filled no_brace =
    let (i, found, before, at_sep, after, later) = cut-append b'}' "}" refl secret "}" no_brace in
    ap closed (behind-append "{{vault:" (secret +++ "}}"))
    ∙ ap (λ o. closed_at o (secret +++ "}}")) found
    ∙ rw (later, at_sep, before, filled) refl

-- A reference as `handleSave` can write it and `loadTc` read it back
abbrev pub IsWritable : VaultHeader → Type 0
IsWritable vh =
    (trim vh.header_name ≡ vh.header_name)
    × (is_filled vh.header_name ≡ true)
    × (is_filled vh.secret_name ≡ true)
    × (has_char b'}' vh.secret_name ≡ false)

abbrev pub AreWritable : List VaultHeader → Type 0
AreWritable [] = Unit
AreWritable (vh ∷ refs) = IsWritable vh × AreWritable refs

-- The headers of references
abbrev pub entries : List VaultHeader → Dict String
entries [] = []
entries (vh ∷ refs) = (vh.header_name, vault_text vh.secret_name) ∷ entries refs

-- No value is a reference.
abbrev pub ArePlain : Dict String → Type 0
ArePlain [] = Unit
ArePlain ((k, v) ∷ h) = (vault_ref v ≡ none) × ArePlain h

-- The references with the identifiers that `loadTc` makes, from a number on
abbrev pub with_ids : (ℕ → String) → ℕ → List VaultHeader → List VaultHeader
with_ids uuid n [] = []
with_ids uuid n (vh ∷ refs) = record vh { id = uuid n } ∷ with_ids uuid (suc n) refs

merge-entries :
    (refs : List VaultHeader) (h : Dict String)
    → AreWritable refs
    → Dict.Distinct (entries refs)
    → AreNew h (entries refs)
    → merge refs h ≡ h ++ entries refs
unfolding merge
merge-entries [] h writable distinct new = sym (append-nil h)
merge-entries (vh ∷ refs) h ((trimmed, named, filled, open_end), writable) (once, distinct)
      (new, rest) =
    let v = vault_text vh.secret_name in
    rw (trimmed, named, filled)
      (ap (merge refs) (set_new vh.header_name v h new)
        ∙ merge-entries refs (h ++ (vh.header_name, v) ∷ []) writable distinct
            (AreNew-snoc vh.header_name v h (entries refs) once rest)
        ∙ append_assoc h ((vh.header_name, v) ∷ []) (entries refs))

module _ (uuid : ℕ → String) where
  split_headers-entries :
      (refs : List VaultHeader) (n : ℕ)
      → AreWritable refs
      → split_headers uuid (entries refs) n ≡ ([], with_ids uuid n refs)
  unfolding split_headers
  split_headers-entries [] n writable = refl
  split_headers-entries (vh ∷ refs) n ((trimmed, named, filled, open_end), writable) =
      rw (vault_ref-vault_text vh.secret_name filled open_end) (
        ap (λ (r : List String × List VaultHeader). (r.0, record vh { id = uuid n } ∷ r.1))
          (split_headers-entries refs (suc n) writable))

  split_headers-plain :
      (plain : Dict String) (refs : List VaultHeader) (n : ℕ)
      → ArePlain plain
      → AreWritable refs
      → split_headers uuid (plain ++ entries refs) n ≡ (header_lines plain, with_ids uuid n refs)
  unfolding split_headers
  split_headers-plain [] refs n are writable = split_headers-entries refs n writable
  split_headers-plain ((k, v) ∷ plain) refs n (one, are) writable = rw one (
      ap (λ (r : List String × List VaultHeader). (header_line (k, v) ∷ r.0, r.1))
        (split_headers-plain plain refs n are writable))

  -- `loadTc` splits the headers that `handleSave` merged into the lines of the plain ones and the
  -- references, with new identifiers: where no plain value is a reference, the names of all headers
  -- differ and are trimmed and filled, and each secret has a name without "}".
  pub split_headers-merge :
      (plain : Dict String) (refs : List VaultHeader)
      → ArePlain plain
      → AreWritable refs
      → Dict.Distinct (entries refs)
      → AreNew plain (entries refs)
      → split_headers uuid (merge refs plain) 0 ≡ (header_lines plain, with_ids uuid 0 refs)
  split_headers-merge plain refs are writable distinct new =
      ap (λ h. split_headers uuid h 0) (merge-entries refs plain writable distinct new)
      ∙ split_headers-plain plain refs 0 are writable

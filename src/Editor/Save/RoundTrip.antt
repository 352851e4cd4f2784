-- ===== src/Editor/Save/RoundTrip.antt =====
-- What the editor loads of what it saved.
use project_hawkeye.Base.{
  ℕ, String, List, [], ◌∷◌, Option, none, some, length, or_else, if◌then◌else◌, ltb, ◌≡◌, refl, sym,
  ap, ◌∙◌, arith, eq_iff, Bool-cases, inl, inr,
}
use project_hawkeye.Base.Chars.{join}
use project_hawkeye.Base.Dict
use project_hawkeye.Base.Dict.{Dict}
use project_hawkeye.Base.Strings.{is_filled}
use project_hawkeye.Editor.{Checkpoint, load_checkpoints}
use project_hawkeye.Editor.Headers.{parse_headers, format_headers}
use project_hawkeye.Editor.Headers.RoundTrip.{AreNew}
use project_hawkeye.Editor.Headers.Vault.{split_headers, merge}
use project_hawkeye.Editor.Headers.Vault.Split.{
  ArePlain, AreWritable, entries, with_ids, split_headers-merge,
}
use project_hawkeye.Editor.Save.{or_null, headers_or_null, body}
use project_hawkeye.Editor.Spec.{Form, load_form}

or_else-or_null : (s : String) → or_else (or_null s) "" ≡ s
or_else-or_null s = elim (Bool-cases (is_filled s)) [
  | inl filled ↦ rw filled refl
  | inr empty ↦ rw empty (sym ((eq_iff s "").0 (ground arith)))
]

or_else-headers_or_null : (h : Dict String) → or_else (headers_or_null h) [] ≡ h
or_else-headers_or_null [] = refl
or_else-headers_or_null (entry ∷ h) = refl

or_else-checkpoints :
    (cs : List Checkpoint) → or_else (if ltb 0 (length cs) then some cs else none) [] ≡ cs
or_else-checkpoints [] = refl
or_else-checkpoints (c ∷ cs) = ground arith

-- The headers of a form can be saved and read back: no plain value is a reference to a secret, the
-- names of all headers differ, those of the references are trimmed and filled, and the secrets have
-- names without "}".
abbrev pub HasHeaders : Form → Type 0
HasHeaders f =
    ArePlain (parse_headers f.extra_headers)
    × AreWritable f.vault_headers
    × Dict.Distinct (entries f.vault_headers)
    × AreNew (parse_headers f.extra_headers) (entries f.vault_headers)

-- The form after a save: the lines of the plain headers in the form of `formatHeaders`, new
-- identifiers at the references, and the steps numbered again.
abbrev pub settled : (ℕ → String) → (ℕ → String) → Form → Form
settled digits uuid f = record f {
  extra_headers = format_headers (some (parse_headers f.extra_headers));
  vault_headers = with_ids uuid 0 f.vault_headers;
  steps = load_checkpoints digits f.steps.checkpoints;
}

-- Loading what the editor saved gives the form that was saved, settled: every field that the form
-- has comes back.
pub load_form-body :
    (digits uuid : ℕ → String) (email : Option String) (f : Form)
    → HasHeaders f
    → load_form digits uuid (body email f) ≡ settled digits uuid f
unfolding load_form body format_headers
load_form-body digits uuid email f (plain, writable, distinct, new) =
    let headers =
      ap (λ h. split_headers uuid h 0)
        (or_else-headers_or_null (merge f.vault_headers (parse_headers f.extra_headers)))
      ∙ split_headers-merge uuid (parse_headers f.extra_headers) f.vault_headers plain writable
          distinct new in
    λ i. record f {
      suite = or_else-or_null f.suite i;
      locale = or_else-or_null f.locale i;
      timezone = or_else-or_null f.timezone i;
      app_desc = or_else-or_null f.app_desc i;
      extra_details = or_else-or_null f.extra_details i;
      extra_headers = join "\n" (headers i).0;
      vault_headers = (headers i).1;
      steps = load_checkpoints digits (or_else-checkpoints f.steps.checkpoints i);
    }

-- ===== src/Editor/Save/Cycle.antt =====
-- A save in the editor as a whole: what is sent, and the page after the answer.
use project_hawkeye.Base.{
  ℕ, suc, String, Bool, true, false, ◌&&◌, List, [], ◌∷◌, Option, none, some, length, if◌then◌else◌,
  ◌≡◌, refl, sym, ap, ◌∙◌, arith,
}
use project_hawkeye.Base.Chars.{trim}
use project_hawkeye.Base.Dict
use project_hawkeye.Base.Dict.{Dict}
use project_hawkeye.Editor.{Checkpoint, label, load_checkpoints, renumber, steps_valid}
use project_hawkeye.Editor.Headers.{parse_headers}
use project_hawkeye.Editor.Headers.RoundTrip.{parse_headers_again}
use project_hawkeye.Editor.Headers.Vault.{VaultHeader, merge}
use project_hawkeye.Editor.Headers.Vault.Split.{with_ids}
use project_hawkeye.Editor.Numbering.{checkpoint_ids, labels, IsNumbered}
use project_hawkeye.Editor.Save.RoundTrip.{HasHeaders, settled, load_form-body}
use project_hawkeye.Editor.Save.{
  vault_of, body, Page, create, update, is_valid_url, name_valid, goal_valid, handle_save, updated,
  reloaded,
}
use project_hawkeye.Editor.Spec.{Form, load_form}

merge-with_ids :
    (uuid : ℕ → String) (n : ℕ) (refs : List VaultHeader) (h : Dict String)
    → merge (with_ids uuid n refs) h ≡ merge refs h
unfolding merge
merge-with_ids uuid n [] h = refl
merge-with_ids uuid n (vh ∷ refs) h = merge-with_ids uuid (suc n) refs _

vault_of-with_ids :
    (uuid : ℕ → String) (n : ℕ) (refs : List VaultHeader)
    → vault_of (with_ids uuid n refs) ≡ vault_of refs
unfolding vault_of
vault_of-with_ids uuid n [] = refl
vault_of-with_ids uuid n (vh ∷ refs) = rw (vault_of-with_ids uuid (suc n) refs)

delete_absent : (k : String) (h : Dict String) → Dict.lookup k h ≡ none → Dict.delete k h ≡ h
unfolding Dict.lookup Dict.delete
delete_absent k [] absent = refl
delete_absent k ((j, v) ∷ h) absent = ground (arith, delete_absent k h)

renumber_of_numbered :
    (digits : ℕ → String) (n : ℕ) (cs : List Checkpoint)
    → checkpoint_ids cs ≡ labels digits n (length cs)
    → renumber digits n cs ≡ cs
unfolding renumber
renumber_of_numbered digits n [] numbered = refl
renumber_of_numbered digits n (c ∷ cs) numbered =
    let first : c.id ≡ label digits n = cc in
    let rest : checkpoint_ids cs ≡ labels digits (suc n) (length cs) = cc in
    λ i. record c { id = sym first i } ∷ renumber_of_numbered digits (suc n) cs rest i

-- Saving once more what was loaded after a save sends the same specification: for a form whose
-- headers can be saved, with no plain one of an empty name, and whose steps are numbered.
pub body-load_form :
    (digits uuid : ℕ → String) (email : Option String) (f : Form)
    → HasHeaders f
    → Dict.lookup "" (parse_headers f.extra_headers) ≡ none
    → IsNumbered digits f.steps
    → body email (load_form digits uuid (body email f)) ≡ body email f
unfolding body load_checkpoints
body-load_form digits uuid email f headers named (numbered, active) =
    let cs = f.steps.checkpoints in
    ap (body email) (load_form-body digits uuid email f headers)
    ∙ rw
        (
          merge-with_ids uuid 0 f.vault_headers,
          vault_of-with_ids uuid 0 f.vault_headers,
          parse_headers_again f.extra_headers,
          delete_absent "" (parse_headers f.extra_headers) named,
          renumber_of_numbered digits 1 cs numbered,
        )
        refl

-- The four validations
abbrev pub is_valid : (String → Option String) → Form → Bool
is_valid protocol_of f =
    name_valid f
    && is_valid_url protocol_of f.url
    && goal_valid f
    && steps_valid trim f.steps.checkpoints

-- A click on save sends the form, of a new test or of an old one, and marks the page as saving if the
-- four validations hold; otherwise it shows one error, sends nothing and changes nothing.
pub handle_save_lem :
    (protocol_of : String → Option String) (is_new : Bool) (email : Option String) (p : Page)
    → ((handle_save protocol_of is_new email p).2 ≡ (
        if is_valid protocol_of p.form
        then some ((if is_new then create else update) (body email p.form))
        else none))
      × ((handle_save protocol_of is_new email p).0
          ≡ (if is_valid protocol_of p.form then record p { saving = true } else p))
      × (length (handle_save protocol_of is_new email p).1
          ≡ (if is_valid protocol_of p.form then 0 else 1))
unfolding handle_save
handle_save_lem protocol_of is_new email p = (ground arith, ground arith, ground arith)

-- A save of an old test that the server takes and answers with what was sent: the page shows the
-- settled form as saved, and neither loads nor saves any more.
pub reloaded-handle_save :
    (protocol_of : String → Option String) (digits uuid : ℕ → String) (project : String)
    (email : Option String) (p : Page)
    → is_valid protocol_of p.form ≡ true
    → HasHeaders p.form
    → (reloaded digits uuid project
        (some (body email p.form))
        (updated digits uuid project true (handle_save protocol_of false email p).0).0).0
      ≡ record p {
        form = settled digits uuid p.form;
        tc = some (body email p.form);
        loading = false;
        saving = false;
        saved_view = true;
      }
unfolding reloaded updated
reloaded-handle_save protocol_of digits uuid project email p valid headers =
    ap
      (λ (q : Page).
        (reloaded digits uuid project (some (body email p.form))
          (updated digits uuid project true q).0).0)
      ((handle_save_lem protocol_of false email p).1
        ∙ ap (λ v. if v then record p { saving = true } else p) valid)
    ∙ (λ i. record p {
      form = load_form-body digits uuid email p.form headers i;
      tc = some (body email p.form);
      loading = false;
      saving = false;
      saved_view = true;
    })

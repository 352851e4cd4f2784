-- ===== src/Settings/Secrets.antt =====
-- What the vault page shows of a secret, and which secrets it lists.
use project_hawkeye.Base.{
  String, false, ap, ◌∙◌, Option, none, some, or_else, ◌≡◌, refl, arith, str_eq, eq_iff,
}
use project_hawkeye.Base.Dict
use project_hawkeye.Base.Dict.{Dict, lookup-set, lookup-delete}
use project_hawkeye.Settings.{Vault, handle_reveal, copied}

reveal_hidden :
    (id : String) (value : Option String) (v : Vault)
    → Dict.lookup id v.revealed_values ≡ none
    → handle_reveal id (some value) v
      ≡ record v { revealed_values = Dict.set id (or_else value "") v.revealed_values }
unfolding handle_reveal
reveal_hidden id value v h = rw (h, handle_reveal) refl

hide_shown :
    (id shown : String) (again : Option (Option String)) (v : Vault)
    → Dict.lookup id v.revealed_values ≡ some shown
    → handle_reveal id again v ≡ record v { revealed_values = Dict.delete id v.revealed_values }
unfolding handle_reveal
hide_shown id shown again v h = rw (h, handle_reveal) refl

copied_shown :
    (id shown : String) (again : Option (Option String)) (v : Vault)
    → Dict.lookup id v.revealed_values ≡ some shown
    → copied id again v ≡ some shown
unfolding copied
copied_shown id shown again v h = rw (h, copied) refl

-- A click on a hidden secret shows the value that the server gives, and what is then copied is that
-- value, whatever the server would answer again; a second click hides the secret, without a request;
-- and neither click changes what is shown of another secret.
pub handle_reveal_lem :
    (id other : String) (value : Option String) (again : Option (Option String)) (v : Vault)
    → Dict.lookup id v.revealed_values ≡ none
    → str_eq id other ≡ false
    → let shown = handle_reveal id (some value) v in
      let hidden = handle_reveal id again shown in
      (copied id again shown ≡ some (or_else value ""))
      × (Dict.lookup id hidden.revealed_values ≡ none)
      × (Dict.lookup other shown.revealed_values ≡ Dict.lookup other v.revealed_values)
      × (Dict.lookup other hidden.revealed_values ≡ Dict.lookup other v.revealed_values)
handle_reveal_lem id other value again v h apart =
    let text = or_else value "" in
    let w : Vault = record v { revealed_values = Dict.set id text v.revealed_values } in
    let set : Dict.lookup id w.revealed_values ≡ some text =
      ground (arith, lookup-set id id text v.revealed_values, eq_iff id id) in
    let kept : Dict.lookup other w.revealed_values ≡ Dict.lookup other v.revealed_values =
      lookup-set id other text v.revealed_values ∙ rw apart refl in
    let gone : Dict.lookup id (Dict.delete id w.revealed_values) ≡ none =
      ground (arith, lookup-delete id id w.revealed_values, eq_iff id id) in
    let kept' : Dict.lookup other (Dict.delete id w.revealed_values)
        ≡ Dict.lookup other v.revealed_values =
      lookup-delete id other w.revealed_values ∙ rw apart kept in
    let hides = hide_shown id text again w set in
    rw (reveal_hidden id value v h) (
      copied_shown id text again w set,
      ap (λ (x : Vault). Dict.lookup id x.revealed_values) hides ∙ gone,
      kept,
      ap (λ (x : Vault). Dict.lookup other x.revealed_values) hides ∙ kept',
    )

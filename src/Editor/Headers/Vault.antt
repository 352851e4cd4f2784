-- ===== src/Editor/Headers/Vault.antt =====
-- The headers that stand for a secret of the vault, in the test case editor: how they are read of a
-- specification (`loadTc`) and merged into one (`handleSave`).
pub mod Split
use Prim.Native.Char.{code}
use Prim.Native.String
use project_hawkeye.Base.{
  ℕ, zero, suc, String, Bool, List, [], ◌∷◌, ◌++◌, Option, none, some, map, if◌then◌else◌, ◌==◌,
  ◌&&◌, ltb, str_eq,
}
use project_hawkeye.Base.Chars.{behind, trim, join, index_of, slice_from}
use project_hawkeye.Base.Dict
use project_hawkeye.Base.Dict.{Dict}
use project_hawkeye.Base.Strings.{slice, ◌+++◌, is_filled}
use project_hawkeye.Editor.Headers.{header_line}

pub record VaultHeader : Type 0 where
  pub id : String
  pub header_name : String
  pub secret_name : String

-- `([^}]+)\}\}$`
unfoldable pub closed_at : Option ℕ → String → Option String
closed_at none s = none
closed_at (some i) s = if ltb 0 i && str_eq (slice_from i s) "}}" then some (slice i s) else none

abbrev pub closed : Option String → Option String
closed none = none
closed (some s) = closed_at (index_of b'}' s) s

-- `m[1]` of `v.match(/^\{\{vault:([^}]+)\}\}$/)`
unfoldable pub vault_ref : String → Option String
unfolding behind closed_at index_of slice_from
vault_ref v = closed (behind "{{vault:" v)

abbrev pub vault_text : String → String
vault_text secret = "{{vault:" +++ (secret +++ "}}")

-- The loop of `loadTc` over the headers: the lines of the plain ones, and the references. `uuid` is
-- `crypto.randomUUID` by the number of its calls so far.
abbrev pub onto :
    Option String
    → String × String
    → (ℕ → String)
    → ℕ
    → (ℕ → List String × List VaultHeader)
    → List String × List VaultHeader
onto none (k, v) uuid n rest = let (lines, refs) = rest n in (header_line (k, v) ∷ lines, refs)
onto (some secret) (k, v) uuid n rest =
    let (lines, refs) = rest (suc n) in
    (lines, record { id = uuid n; header_name = k; secret_name = secret } ∷ refs)

unfoldable pub split_headers : (ℕ → String) → Dict String → ℕ → List String × List VaultHeader
unfolding vault_ref
split_headers uuid [] n = ([], [])
split_headers uuid ((k, v) ∷ h) n = onto (vault_ref v) (k, v) uuid n (split_headers uuid h)

-- The loop of `handleSave` over the references
unfoldable pub merge : List VaultHeader → Dict String → Dict String
merge [] headers = headers
merge (vh ∷ rest) headers = merge rest (
    if is_filled (trim vh.header_name) && is_filled vh.secret_name
    then Dict.set (trim vh.header_name) (vault_text vh.secret_name) headers
    else headers)

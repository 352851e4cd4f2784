-- ===== src/Workspace/Navigation/Paths.antt =====
-- What the rail shows at the paths of its own items.
use text.Mathlib.Text.{starts_with}
use text.Mathlib.TextEquality.{starts_with_iff}
use text.Mathlib.TextLemmas.{nil-append, cons-append, append_assoc, append_cancel_left}
use project_hawkeye.Base.{
  suc, String, Bool, true, false, ◌&&◌, ◌||◌, count_by, every, ◌==◌, List, [], ◌∷◌, ◌++◌, map,
  filter, get_elem?, some, ◌≡◌, refl, sym, ap, ◌∙◌, str_eq, eq_iff, Bool-cases, inl, inr,
}
use project_hawkeye.Base.Chars.{split, has_char}
use project_hawkeye.Base.Chars.Laws.{split-append}
use project_hawkeye.Base.Strings.{is_filled, ◌+++◌}
use project_hawkeye.Workspace.Navigation.{
  NavItem, is_global_hub_path, segments, project_id, get_primary_nav, get_workspace_settings_nav,
  scope_active,
}

-- A path below a project
abbrev pub below : String → String → String
below id rest = "/app/" +++ (id +++ ("/" +++ rest))

slash : (s : String) → "/" +++ s ≡ String.◌∷◌ "/" s
slash s = cons-append "/" "" s ∙ ap (String.◌∷◌ "/") (nil-append s)

below_lem :
    (id rest : String)
    → below id rest ≡ String.◌∷◌ "/" ("app" +++ String.◌∷◌ "/" (id +++ String.◌∷◌ "/" rest))
below_lem id rest =
    let inner = id +++ String.◌∷◌ "/" rest in
    ap (λ t. "/app/" +++ (id +++ t)) (slash rest)
    ∙ cons-append "/" "app/" inner
    ∙ ap (String.◌∷◌ "/") (append_assoc "app" "/" inner ∙ ap ("app" +++◌) (slash inner))

segments-below :
    (id rest : String)
    → is_filled id ≡ true
    → has_char b'/' id ≡ false
    → get_elem? (segments (below id rest)) 1 ≡ some id
unfolding segments has_char
segments-below id rest filled one =
    let inner = id +++ String.◌∷◌ "/" rest in
    ap (λ path. get_elem? (filter is_filled (split b'/' path)) 1) (below_lem id rest)
    ∙ ap (λ parts. get_elem? (filter is_filled ("" ∷ parts)) 1)
        (split-append b'/' "/" refl "app" inner refl
          ∙ ap ("app" ∷◌) (split-append b'/' "/" refl id rest one))
    ∙ rw filled refl

-- At a path below a project that is not one of the hub, the rail is about this project.
pub project_id-below :
    (id rest : String)
    → is_filled id ≡ true
    → has_char b'/' id ≡ false
    → is_global_hub_path (below id rest) ≡ false
    → project_id (below id rest) ≡ some id
unfolding project_id
project_id-below id rest filled one workspace = rw workspace (segments-below id rest filled one)

Bool_ext : (x y : Bool) → (x ≡ true → y ≡ true) → (y ≡ true → x ≡ true) → x ≡ y
Bool_ext true y f g = sym (f refl)
Bool_ext false true f g = g refl
Bool_ext false false f g = refl

str_eq-append : (p a b : String) → str_eq (p +++ a) (p +++ b) ≡ str_eq a b
str_eq-append p a b =
    Bool_ext (str_eq (p +++ a) (p +++ b)) (str_eq a b)
      (λ h. (eq_iff a b).1 (append_cancel_left p a b ((eq_iff (p +++ a) (p +++ b)).0 h)))
      (λ h. (eq_iff (p +++ a) (p +++ b)).1 (ap (p +++◌) ((eq_iff a b).0 h)))

starts_with-append_left : (p a b : String) → starts_with (p +++ a) (p +++ b) ≡ starts_with a b
starts_with-append_left p a b =
    Bool_ext (starts_with (p +++ a) (p +++ b)) (starts_with a b)
      (λ h.
        let (u, same) = (starts_with_iff (p +++ a) (p +++ b)).0 h in
        (starts_with_iff a b).1
          (u, append_cancel_left p (b +++ u) a (sym (append_assoc p b u) ∙ same)))
      (λ h.
        let (u, same) = (starts_with_iff a b).0 h in
        (starts_with_iff (p +++ a) (p +++ b)).1 (u, append_assoc p b u ∙ ap (p +++◌) same))

-- The items of the rail of a project
abbrev pub items : String → List NavItem
items id = get_primary_nav id ++ get_workspace_settings_nav id

abbrev pub is_only : List NavItem → NavItem → Bool
is_only nav item = scope_active item.href item && (count_by (scope_active item.href) nav == 1)

abbrev table : List (String × String)
table =
    ("/dashboard", "Dashboard")
    ∷ ("/test-cases", "Test cases")
    ∷ ("/runs/live", "Live")
    ∷ ("/artifacts", "Artifacts")
    ∷ ("/suites", "Test suites")
    ∷ ("/vault", "The Vault")
    ∷ ("/settings/project", "Project")
    ∷ ("/settings/integrations", "Integrations")
    ∷ ("/settings/org", "Organization")
    ∷ []

abbrev item : String → String × String → NavItem
item p (end, label) = record { href = p +++ end; label = label }

items-table : (id : String) → items id ≡ map (item ("/app/" +++ id)) table
unfolding get_primary_nav get_workspace_settings_nav
items-table id = refl

-- The test of an item without what the paths share
abbrev is_at : String → String → Bool
is_at end item_end = str_eq end item_end || starts_with end (item_end +++ "/")

scope_active-append :
    (p end item_end label : String)
    → scope_active (p +++ end) (record { href = p +++ item_end; label = label })
      ≡ is_at end item_end
unfolding scope_active
scope_active-append p end item_end label =
    rw
      (
        str_eq-append p end item_end,
        append_assoc p item_end "/",
        starts_with-append_left p end (item_end +++ "/"),
      )
      refl

count-item :
    (p end : String) (t : List (String × String))
    → count_by (scope_active (p +++ end)) (map (item p) t) ≡ count_by (λ x. is_at end x.0) t
count-item p end [] = refl
count-item p end ((item_end, label) ∷ t) =
    let here = scope_active-append p end item_end label in
    elim (Bool-cases (is_at end item_end)) [
      | inl yes_at ↦ rw (here, yes_at) (ap suc (count-item p end t))
      | inr not_at ↦ rw (here, not_at) (count-item p end t)
    ]

every-item :
    (p : String) (all t : List (String × String))
    → every (is_only (map (item p) all)) (map (item p) t)
      ≡ every (λ x. is_at x.0 x.0 && (count_by (λ y. is_at x.0 y.0) all == 1)) t
every-item p all [] = refl
every-item p all ((end, label) ∷ t) =
    rw (scope_active-append p end end label, count-item p end all, every-item p all t) refl

-- At the path of each item of a project's rail, this item is shown as active and no other one.
pub is_only-items : (id : String) → every (is_only (items id)) (items id) ≡ true
is_only-items id =
    let p = "/app/" +++ id in
    ap (λ nav. every (is_only nav) nav) (items-table id) ∙ every-item p table table

-- ===== src/Settings/Defaults.antt =====
-- The default among the environments of a project.
use project_hawkeye.Base.{
  ℕ, ◌+◌, ◌≤◌, String, Bool, true, false, List, [], ◌∷◌, ◌++◌, map, count_by, if◌then◌else◌, eq_iff,
  ◌≡◌, refl, ap, ◌∙◌, arith, subst, sym,
}
use project_hawkeye.Base.Strings.{contains, contains-append}
use project_hawkeye.Base.Strings
use project_hawkeye.Settings.{
  Environment, handle_create, handle_set_default, handle_delete, EnvironmentEvent, created,
  set_default, deleted, failed, on_environment, on_environments,
}

abbrev pub environment_ids : List Environment → List String
environment_ids = map (λ (e : Environment). e.id)

abbrev defaults : List Environment → ℕ
defaults envs = count_by (λ e. e.is_default) envs

abbrev pub IsSound : List Environment → Type 0
IsSound envs = Strings.Distinct (environment_ids envs) × (count_by (λ e. e.is_default) envs ≤ 1)

-- What the server answers: an environment that it creates is new, and the default only if that was
-- asked for.
abbrev pub AreAnswered : List EnvironmentEvent → List Environment → Type 0
AreAnswered [] envs = Unit
AreAnswered (created is_default env ∷ rest) envs =
    (contains env.id (environment_ids envs) ≡ false)
    × (env.is_default ≡ is_default)
    × AreAnswered rest (on_environment (created is_default env) envs)
AreAnswered (set_default id ∷ rest) envs = AreAnswered rest (on_environment (set_default id) envs)
AreAnswered (deleted id ∷ rest) envs = AreAnswered rest (on_environment (deleted id) envs)
AreAnswered (failed ∷ rest) envs = AreAnswered rest envs

abbrev cleared : List Environment → List Environment
cleared = map (λ (e : Environment). record e { is_default = false })

ids-cleared : (envs : List Environment) → environment_ids (cleared envs) ≡ environment_ids envs
ids-cleared [] = refl
ids-cleared (e ∷ envs) = ap (e.id ∷◌) (ids-cleared envs)

defaults-cleared : (envs : List Environment) → defaults (cleared envs) ≡ 0
defaults-cleared [] = refl
defaults-cleared (e ∷ envs) = defaults-cleared envs

ids-snoc :
    (envs : List Environment) (e : Environment)
    → environment_ids (envs ++ e ∷ []) ≡ environment_ids envs ++ e.id ∷ []
ids-snoc [] e = refl
ids-snoc (x ∷ envs) e = ap (x.id ∷◌) (ids-snoc envs e)

defaults-snoc :
    (envs : List Environment) (e : Environment)
    → defaults (envs ++ e ∷ []) ≡ defaults envs + (if e.is_default then 1 else 0)
defaults-snoc [] e = ground arith
defaults-snoc (x ∷ envs) e = ground (arith, defaults-snoc envs e)

Distinct-snoc :
    (k : String) (xs : List String)
    → contains k xs ≡ false
    → Strings.Distinct xs
    → Strings.Distinct (xs ++ k ∷ [])
unfolding contains
Distinct-snoc k [] h d = (refl, tt)
Distinct-snoc k (x ∷ xs) h (new, d) =
    ground (arith, contains-append x xs (k ∷ []), eq_iff k x, eq_iff x k, Distinct-snoc k xs)

ids-set_default :
    (id : String) (envs : List Environment)
    → environment_ids (handle_set_default id envs) ≡ environment_ids envs
unfolding handle_set_default
ids-set_default id [] = refl
ids-set_default id (e ∷ envs) = ap (e.id ∷◌) (ids-set_default id envs)

defaults-set_default :
    (id : String) (envs : List Environment)
    → Strings.Distinct (environment_ids envs)
    → defaults (handle_set_default id envs) ≡ (if contains id (environment_ids envs) then 1 else 0)
unfolding handle_set_default contains
defaults-set_default id [] d = refl
defaults-set_default id (e ∷ envs) (new, d) =
    ground (arith, defaults-set_default id envs d, eq_iff e.id id)

delete-absent :
    (k id : String) (envs : List Environment)
    → contains k (environment_ids envs) ≡ false
    → contains k (environment_ids (handle_delete id envs)) ≡ false
unfolding handle_delete contains
delete-absent k id [] h = refl
delete-absent k id (e ∷ envs) h = ground (arith, delete-absent k id envs)

delete-IsSound :
    (id : String) (envs : List Environment)
    → Strings.Distinct (environment_ids envs)
    → Strings.Distinct (environment_ids (handle_delete id envs))
      × (defaults (handle_delete id envs) ≤ defaults envs)
unfolding handle_delete
delete-IsSound id [] d = (tt, omega arith)
delete-IsSound id (e ∷ envs) (new, d) =
    ground (arith, delete-IsSound id envs d, delete-absent e.id id envs new)

create-IsSound :
    (is_default : Bool) (env : Environment) (envs : List Environment)
    → contains env.id (environment_ids envs) ≡ false
    → env.is_default ≡ is_default
    → IsSound envs
    → IsSound (handle_create is_default env envs)
unfolding handle_create
create-IsSound true env envs new same (d, one) = (
  subst Strings.Distinct
      (sym (ids-snoc (cleared envs) env ∙ ap (◌++ env.id ∷ []) (ids-cleared envs)))
      (Distinct-snoc env.id (environment_ids envs) new d),
  ground (arith, defaults-snoc (cleared envs) env, defaults-cleared envs),
)
create-IsSound false env envs new same (d, one) = (
  subst Strings.Distinct (sym (ids-snoc envs env))
      (Distinct-snoc env.id (environment_ids envs) new d),
  ground (arith, defaults-snoc envs env),
)

set_default-IsSound :
    (id : String) (envs : List Environment) → IsSound envs → IsSound (handle_set_default id envs)
set_default-IsSound id envs (d, one) = (
  subst Strings.Distinct (sym (ids-set_default id envs)) d,
  ground (arith, defaults-set_default id envs d),
)

-- When identifiers are distinct and one environment at most is the default, the same holds after any
-- creations, changes of the default, deletions and failures, if the server answers a creation with a
-- new identifier and with the default mark that was asked for.
pub on_environments-IsSound :
    (es : List EnvironmentEvent) (envs : List Environment)
    → AreAnswered es envs
    → IsSound envs
    → IsSound (on_environments es envs)
unfolding on_environments on_environment
on_environments-IsSound [] envs h k = k
on_environments-IsSound (created is_default env ∷ rest) envs (new, same, h) k =
    on_environments-IsSound rest (handle_create is_default env envs) h
      (create-IsSound is_default env envs new same k)
on_environments-IsSound (set_default id ∷ rest) envs h k =
    on_environments-IsSound rest (handle_set_default id envs) h (set_default-IsSound id envs k)
on_environments-IsSound (deleted id ∷ rest) envs h (d, one) =
    let (d', fewer) = delete-IsSound id envs d in
    on_environments-IsSound rest (handle_delete id envs) h (d', omega (arith, fewer, one))
on_environments-IsSound (failed ∷ rest) envs h k = on_environments-IsSound rest envs h k

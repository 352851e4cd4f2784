-- ===== src/Auth/Middleware.antt =====
-- The two middlewares: Frontend/hawkeye-web/middleware.ts, and src/middleware.ts with its matcher.
-- NextAuth's `getToken` is an argument. A request path is given without its leading slash to the
-- matcher, whose regular expression starts with one.
use project_hawkeye.Base.{
  String, Bool, true, not, ◌||◌, List, [], ◌∷◌, Option, if◌then◌else◌, or_else, any, str_eq, ◌≡◌,
  refl, arith, ◌↔◌, eq_iff, inl, inr, Bool-cases,
}
use project_hawkeye.Base.Strings.{is_filled, contains, any_suffix, any_suffix-append, ◌+++◌}
use text.Mathlib.Text.{starts_with}
use text.Mathlib.TextPositions.{starts_with-append}

pub data Outcome : Type 0 where
  next : Outcome
  redirect : (pathname parameter value : String) → Outcome

pub record Request : Type 0 where
  pub pathname : String
  pub search : String

-- middleware.ts: `nextauth_secret` and `auth_secret` are the variables of the environment, and
-- `get_token` says whether the request holds a token for a secret.
unfoldable pub middleware :
    Option String → Option String → (String → Request → Bool) → Request → Outcome
middleware nextauth_secret auth_secret get_token request =
    let secret = or_else nextauth_secret (or_else auth_secret "") in
    if not (is_filled secret)
    then redirect "/api/auth/error" "error" "Configuration"
    else if not (get_token secret request)
    then redirect "/auth/login" "callbackUrl" (request.pathname +++ request.search)
    else next

-- A request passes exactly if there is a secret and the request holds a token for it.
pub middleware-eq-next :
    (nextauth_secret auth_secret : Option String) (get_token : String → Request → Bool)
    (request : Request)
    → (middleware nextauth_secret auth_secret get_token request ≡ next) ↔ (
        (is_filled (or_else nextauth_secret (or_else auth_secret "")) ≡ true)
        × (get_token (or_else nextauth_secret (or_else auth_secret "")) request ≡ true))
unfolding middleware
middleware-eq-next a b get_token request = ground arith

abbrev pub prefixes : List String
prefixes = "blog" ∷ "auth" ∷ "_next" ∷ "api/auth" ∷ "favicon" ∷ []

abbrev pub extensions : List String
extensions =
    ".png" ∷ ".svg" ∷ ".ico" ∷ ".jpg" ∷ ".jpeg" ∷ ".webp" ∷ ".woff" ∷ ".woff2" ∷ ".ttf" ∷ []

-- The negative lookahead of the matcher. Nothing in it asks for the end of the path, so the optional
-- `(?:/.*)?` behind a prefix asks for nothing.
unfoldable pub is_excluded : String → Bool
unfolding any_suffix
is_excluded path =
    str_eq path ""
    || any (starts_with path) prefixes
    || any_suffix (λ rest. any (starts_with rest) extensions) path

-- `authorized: ({ token }) => !!token`, for a path that the matcher takes; other paths are open.
unfoldable pub is_let_through : Bool → String → Bool
is_let_through has_token path = is_excluded path || has_token

any_of_contains :
    (f : String → Bool) (k : String) (ks : List String)
    → contains k ks ≡ true
    → f k ≡ true
    → any f ks ≡ true
unfolding contains
any_of_contains f k [] h e = cc
any_of_contains f k (x ∷ ks) h e = elim (Bool-cases (str_eq x k)) [
  | inl same ↦ rw ((eq_iff x k).0 same, e) refl
  | inr other ↦ ground (arith, any_of_contains f k ks)
]

-- Contrary to the comment above the matcher, which exempts `/blog` and `/blog/*` and the like, a path
-- is let through without a token as soon as it begins with one of the five prefixes, whatever
-- follows.
pub is_let_through_of_prefix :
    (has_token : Bool) (k after : String)
    → contains k prefixes ≡ true
    → is_let_through has_token (k +++ after) ≡ true
unfolding is_let_through is_excluded
is_let_through_of_prefix has_token k after h =
    ground
      (arith, any_of_contains (starts_with (k +++ after)) k prefixes h (starts_with-append k after))

-- A path is let through without a token as soon as one of the extensions stands somewhere in it.
pub is_let_through_of_extension :
    (has_token : Bool) (before k after : String)
    → contains k extensions ≡ true
    → is_let_through has_token (before +++ (k +++ after)) ≡ true
unfolding is_let_through is_excluded
is_let_through_of_extension has_token before k after h = ground (
  arith,
  any_suffix-append (λ rest. any (starts_with rest) extensions) before (k +++ after)
      (any_of_contains (starts_with (k +++ after)) k extensions h (starts_with-append k after)),
)

-- ===== src/Auth/Login/Redirect.antt =====
-- Where the login page goes.
use text.Mathlib.Text.{starts_with}
use text.Mathlib.TextEquality.{starts_with_iff}
use text.Mathlib.TextPositions.{starts_with-append}
use text.Mathlib.TextLemmas.{cons-append, append_assoc}
use project_hawkeye.Base.{
  String, Bool, true, false, not, ◌||◌, Option, none, some, or_else, str_eq, if◌then◌else◌, ◌≡◌,
  refl, sym, ap, ◌∙◌, Bool-cases, inl, inr,
}
use project_hawkeye.Base.Chars.{trim, behind}
use project_hawkeye.Base.Chars.Laws.{behind-append, is_filled-cons_append}
use project_hawkeye.Base.Strings.{◌+++◌, truthy, is_filled}
use project_hawkeye.Auth.Login.{safe_path, safe_post_login_redirect, callback_url, redirect_after}
use project_hawkeye.Auth.Middleware.{middleware, Outcome, next, redirect, Request}

-- Where the browser stays at the server that the page comes from, at a path that begins with "/app"
abbrev pub StaysInApp : String → Type 0
StaysInApp path = (rest : String) × (path ≡ "/app" +++ rest)

stays : (path : String) → starts_with path "/app" ≡ true → StaysInApp path
stays path h = let (rest, eq) = (starts_with_iff path "/app").0 h in (rest, sym eq)

safe_path-StaysInApp : (decoded : Option String) → StaysInApp (safe_path decoded)
unfolding safe_path
safe_path-StaysInApp none = ("", refl)
safe_path-StaysInApp (some path) =
    elim (Bool-cases (not (starts_with path "/") || starts_with path "//")) [
      | inl other ↦ rw other ("", refl)
      | inr slash ↦ elim (Bool-cases (starts_with path "/app")) [
        | inl app ↦ rw (slash, app) (stays path app)
        | inr other ↦ rw (slash, other) ("", refl)
      ]
    ]

-- Whatever the callback URL and its decoding are, the login page goes to a path that begins with
-- "/app", so to no other server.
pub safe_post_login_redirect-StaysInApp :
    (decode : String → Option String) (raw : Option String)
    → StaysInApp (safe_post_login_redirect decode raw)
unfolding safe_post_login_redirect
safe_post_login_redirect-StaysInApp decode raw = elim (Bool-cases (truthy raw)) [
  | inl given ↦ rw given (safe_path-StaysInApp (decode (trim (or_else raw ""))))
  | inr absent ↦ rw absent ("", refl)
]

behind_of_slashes : (rest : String) → behind "/app" ("//" +++ rest) ≡ none
unfolding behind
behind_of_slashes rest = rw cons-append (rw cons-append refl)

not_slashes : (rest : String) → starts_with ("/app" +++ rest) "//" ≡ false
not_slashes rest = elim (Bool-cases (starts_with ("/app" +++ rest) "//")) [
  | inl slashes ↦
      let (u, eq) = (starts_with_iff ("/app" +++ rest) "//").0 slashes in
      let found : none ≡ some rest =
        sym (behind_of_slashes u) ∙ ap (behind "/app") eq ∙ behind-append "/app" rest in
      cc
  | inr other ↦ other
]

app_slash : (rest : String) → "/" +++ ("app" +++ rest) ≡ "/app" +++ rest
app_slash rest = sym (append_assoc "/" "app" rest)

safe_path_of_app : (rest : String) → safe_path (some ("/app" +++ rest)) ≡ "/app" +++ rest
unfolding safe_path
safe_path_of_app rest =
    let slash : starts_with ("/app" +++ rest) "/" ≡ true =
      ap (λ p. starts_with p "/") (sym (app_slash rest))
      ∙ starts_with-append "/" ("app" +++ rest) in
    rw (slash, not_slashes rest, starts_with-append "/app" rest) refl

-- Where the browser is after a login on the page that an outcome of the middleware leads to, if this
-- is the login page. The middleware sets its parameter in place of one of the same name, and leaves
-- the others of the request.
abbrev pub after_login : (String → Option String) → Outcome → Option String
after_login decode next = none
after_login decode (redirect pathname parameter value) =
    if str_eq pathname "/auth/login" then some (redirect_after decode parameter value) else none

-- Who asks for a page of the application without a token is led to the login page, and from it comes
-- back to the path and query that were asked for, where these have no white space at their ends and
-- `decodeURIComponent` leaves them alone.
pub after_login-middleware :
    (nextauth_secret auth_secret : Option String) (get_token : String → Request → Bool)
    (decode : String → Option String) (rest search : String)
    → is_filled (or_else nextauth_secret (or_else auth_secret "")) ≡ true
    → get_token
        (or_else nextauth_secret (or_else auth_secret ""))
        (record { pathname = "/app" +++ rest; search = search })
      ≡ false
    → decode (trim ("/app" +++ rest +++ search)) ≡ some ("/app" +++ rest +++ search)
    → after_login decode (
        middleware nextauth_secret auth_secret get_token
          (record { pathname = "/app" +++ rest; search = search }))
      ≡ some ("/app" +++ rest +++ search)
unfolding middleware redirect_after callback_url
after_login-middleware a b get_token decode rest search secret no_token decoded =
    let path = append_assoc "/app" rest search in
    rw
      (
        secret,
        no_token,
        decoded,
        ap is_filled path ∙ is_filled-cons_append "/" "app" (rest +++ search),
      )
      (ap some (ap (λ p. safe_path (some p)) path ∙ safe_path_of_app (rest +++ search) ∙ sym path))

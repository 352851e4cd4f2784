-- ===== src/Auth/Login.antt =====
-- The login page, src/app/auth/login/page.tsx of Frontend/hawkeye-web, and the form of
-- src/app/auth/password-recovery/page.tsx. NextAuth's `signIn` and `decodeURIComponent` are arguments.
pub mod Redirect
use text.Mathlib.Text.{starts_with}
use project_hawkeye.Base.{
  ℕ, String, Bool, true, false, not, ◌&&◌, ◌||◌, Option, none, some, is_some, if◌then◌else◌,
  or_else, str_eq,
}
use project_hawkeye.Base.Chars.{trim}
use project_hawkeye.Base.Strings.{is_filled, truthy}
use project_hawkeye.Auth.Forms.{email_error, password_error}

-- The tests of `safePostLoginRedirect` on the decoded path, which is `none` when decoding throws
unfoldable pub safe_path : Option String → String
safe_path none = "/app"
safe_path (some path) =
    if not (starts_with path "/") || starts_with path "//"
    then "/app"
    else if not (starts_with path "/app")
    then "/app"
    else path

-- `safePostLoginRedirect`; `decode` is `decodeURIComponent`.
unfoldable pub safe_post_login_redirect : (String → Option String) → Option String → String
unfolding safe_path trim
safe_post_login_redirect decode raw =
    if truthy raw then safe_path (decode (trim (or_else raw ""))) else "/app"

-- `searchParams.get("callbackUrl")`, of an address that a parameter was set on
unfoldable pub callback_url : (parameter value : String) → Option String
callback_url parameter value = if str_eq parameter "callbackUrl" then some value else none

-- `redirectAfter`
unfoldable pub redirect_after : (String → Option String) → (parameter value : String) → String
unfolding callback_url safe_post_login_redirect
redirect_after decode parameter value =
    safe_post_login_redirect decode (callback_url parameter value)

pub record Page : Type 0 where
  pub email : String
  pub password : String
  pub submitting : Bool
  pub login_error : Option String
  pub location : Option String

abbrev pub least_password : ℕ
least_password = 6

-- `canSubmit` of the login page
unfoldable pub can_submit : Page → Bool
unfolding email_error password_error
can_submit p =
    not (is_some (email_error p.email))
    && not (
        is_some
          (password_error least_password "Password must be at least 6 characters." p.password))
    && is_filled p.email
    && is_filled p.password
    && not p.submitting

-- `onSubmit` up to its `await`, with the call of `signIn` if there is one
unfoldable pub on_submit : Page → Page × Option (String × String)
unfolding can_submit
on_submit p =
    if can_submit p
    then (record p { login_error = none; submitting = true }, some (p.email, p.password))
    else (p, none)

-- The rest of `onSubmit`; `failed` is `!!result?.error`, `redirect_after` the memo of the page.
unfoldable pub signed_in : String → (failed : Bool) → Page → Page
signed_in redirect_after failed p =
    if failed
    then record p { submitting = false; login_error = some "Invalid email or password." }
    else record p { submitting = false; location = some redirect_after }

-- The form of the password recovery: whether it can be sent, and what a click makes of `submitting`.
unfoldable pub can_recover : (email : String) (submitting : Bool) → Bool
unfolding email_error
can_recover email submitting =
    not (is_some (email_error email)) && is_filled email && not submitting

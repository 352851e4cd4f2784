-- ===== src/Auth/Token.antt =====
-- The callbacks of src/lib/auth/options.ts. What the backend answers is an argument.
pub mod Refresh
use project_hawkeye.Base.{
  ℕ, String, Bool, true, false, not, ◌&&◌, List, [], ◌∷◌, Option, none, some, if◌then◌else◌,
  or_else, str_eq, is_some,
}
use project_hawkeye.Base.Strings.{truthy, is_filled}

-- The fields of NextAuth's `JWT` that the callbacks use.
pub record Token : Type 0 where
  pub email : Option String
  pub name : Option String
  pub access_token : Option String
  pub provider : Option String

pub record User : Type 0 where
  pub id : String
  pub email : Option String
  pub name : Option String
  pub access_token : Option String

pub record Account : Type 0 where
  pub provider : String

-- The answer to the call of `/api/auth/oauth-token`: an answer that is ok, with the access token of
-- its JSON; one that is not; or an exception.
pub data Exchange : Type 0 where
  granted : Option String → Exchange
  refused : Exchange
  unreachable : Exchange

-- `user?.access_token` goes into the token.
abbrev pub with_user : Option User → Token → Token
with_user none t = t
with_user (some u) t =
    if truthy u.access_token then record t { access_token = u.access_token } else t

abbrev pub with_account : Option Account → Token → Token
with_account none t = t
with_account (some a) t = record t { provider = some a.provider }

abbrev pub is_credentials : Option String → Bool
is_credentials none = false
is_credentials (some p) = str_eq p "credentials"

-- The test of the third `if`.
unfoldable pub needs_exchange : Token → Bool
needs_exchange t = not (is_credentials t.provider) && truthy t.email && not (truthy t.access_token)

abbrev pub after_exchange : Exchange → Token → Token
after_exchange (granted a) t = record t { access_token = a }
after_exchange refused t = t
after_exchange unreachable t = t

-- The token that goes to the third `if`.
abbrev pub prepared : Option User → Option Account → Token → Token
prepared user account t = with_account account (with_user user t)

-- `jwt`, with the token that it returns and whether it called the backend; the call sends the
-- e-mail and the name, or "" for a name that is missing.
unfoldable pub jwt :
    (String → String → Exchange) → Option User → Option Account → Token → Token × Bool
unfolding needs_exchange
jwt backend user account token =
    let t : Token = prepared user account token in
    if needs_exchange t
    then (after_exchange (backend (or_else t.email "") (or_else t.name "")) t, true)
    else (t, false)

-- `session`, on the access token of the session.
unfoldable pub session_callback : Option String → Token → Option String
session_callback current t = if truthy t.access_token then t.access_token else current

-- What `authorize` learns from `/api/auth/login`.
pub data Login : Type 0 where
  accepted : User → Login
  denied : Login
  failed : Login

pub record Credentials : Type 0 where
  pub email : Option String
  pub password : Option String

-- `data.name || null`
abbrev pub nonempty : Option String → Option String
nonempty name = if truthy name then name else none

unfoldable pub authorize : (String → String → Login) → Option Credentials → Option User
authorize backend none = none
authorize backend (some c) =
    if truthy c.email && truthy c.password
    then elim (backend (or_else c.email "") (or_else c.password "")) [
      | accepted u ↦ some (record u { name = nonempty u.name })
      | denied ↦ none
      | failed ↦ none
    ]
    else none

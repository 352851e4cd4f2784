-- ===== src/Client/Session.antt =====
-- The session state of lib/api/client.ts and the request that `apiFetch` makes of it. `apiFetch` is
-- cut where it waits: before the request for the session, and for the response.
pub mod Laws
use project_hawkeye.Base.{
  ℕ, String, Bool, true, false, not, ◌&&◌, List, [], ◌∷◌, Option, none, some, if◌then◌else◌, leb,
  ◌==◌, or_else,
}
use project_hawkeye.Base.Dict
use project_hawkeye.Base.Dict.{Dict}
use project_hawkeye.Base.Strings.{truthy, is_filled, ◌+++◌}

pub record Session : Type 0 where
  pub auth_email : Option String
  pub auth_token : Option String
  pub session_ready : Bool

abbrev pub initial : Session
initial = record { auth_email = none; auth_token = none; session_ready = false }

unfoldable pub set_auth_user : Option String → Session → Session
set_auth_user email s = record s {
  auth_email = email;
  session_ready = if truthy email then true else s.session_ready;
}

unfoldable pub set_auth_token : Option String → Session → Session
set_auth_token token s = record s {
  auth_token = token;
  session_ready = if truthy token then true else s.session_ready;
}

pub data Method : Type 0 where
  get post put patch delete : Method

-- `RequestInit`: a property that the caller leaves out is `none`.
pub record RequestInit : Type 0 where
  pub method : Option Method
  pub headers : Option (Dict String)
  pub body : Option String

pub record Request : Type 0 where
  pub url : String
  pub method : Method
  pub headers : Dict String
  pub body : Option String

-- `{ ...a, ...b }`
unfoldable pub spread {ℓ} : {V : Type ℓ} → Dict V → Dict V → Dict V
spread a [] = a
spread a ((k, v) ∷ b) = spread (Dict.set k v a) b

unfoldable pub auth_headers : Session → Dict String
auth_headers s =
    if truthy s.auth_token
    then ("Authorization", "Bearer " +++ or_else s.auth_token "") ∷ []
    else if truthy s.auth_email
    then ("X-User-Email", or_else s.auth_email "") ∷ []
    else []

-- Whether `apiFetch` waits (four seconds at most) before it reads the credentials.
pub must_wait : Bool → Session → Bool
must_wait browser s = not s.session_ready && browser

-- The argument of `fetch`: `...init` stands after `headers`, and writes over it if it has headers.
unfoldable pub request : String → String → RequestInit → Session → Request
unfolding auth_headers spread
request api_url path init s = record {
  url = api_url +++ path;
  method = or_else init.method get;
  headers = elim init.headers [
    | none ↦ spread (("Content-Type", "application/json") ∷ []) (auth_headers s)
    | some own ↦ own
  ];
  body = init.body;
}

-- What `fetch` gives: a rejection, or a response with its JSON.
pub data Response (T : Type 0) : Type 0 where
  rejected : String → Response T
  responded : (status : ℕ) → (status_text : String) → T → Response T

pub data Result (T : Type 0) : Type 0 where
  ok : T → Result T
  error : String → Result T

-- `res.ok`
abbrev pub is_ok : ℕ → Bool
is_ok status = leb 200 status && leb status 299

-- The part of `apiFetch` behind the response: its result, and whether it signs out. `digits` is the
-- text of a number.
module _ {T : Type 0} (digits : ℕ → String) (browser : Bool) where
  unfoldable pub receive : String → Session → Response T → Result T × Bool
  receive path s (rejected reason) = (error reason, false)
  receive path s (responded status text json) =
      if status == 401
      then (error "Unauthorized", browser && s.session_ready)
      else if is_ok status
      then (ok json, false)
      else (error ("API " +++ path +++ ": " +++ digits status +++ " " +++ text), false)

-- ===== src/Client/Session/Laws.antt =====
-- What the requests of `apiFetch` carry, and when it signs out.
use project_hawkeye.Base.{
  ℕ, String, Bool, false, not, ◌&&◌, ◌||◌, List, [], ◌∷◌, Option, none, some, if◌then◌else◌, ◌≡◌,
  refl, arith, ◌==◌, or_else, any,
}
use project_hawkeye.Base.Dict
use project_hawkeye.Base.Dict.{Dict}
use project_hawkeye.Base.Strings.{truthy, ◌+++◌}
use project_hawkeye.Client.Session.{
  Session, initial, set_auth_user, set_auth_token, RequestInit, request, Response, rejected,
  responded, Result, ok, error, receive, is_ok,
}

-- A request whose caller gives no headers is of type JSON and names the user in one way: by the
-- token if there is one, else by the e-mail if there is one, else not at all.
pub request-headers :
    (api_url path : String) (init : RequestInit) (s : Session)
    → init.headers ≡ none
    → (Dict.lookup "Content-Type" (request api_url path init s).headers ≡ some "application/json")
      × (Dict.lookup "Authorization" (request api_url path init s).headers
          ≡ (if truthy s.auth_token then some ("Bearer " +++ or_else s.auth_token "") else none))
      × (Dict.lookup "X-User-Email" (request api_url path init s).headers ≡ (
          if not (truthy s.auth_token) && truthy s.auth_email
          then some (or_else s.auth_email "")
          else none))
unfolding request Dict.lookup Dict.set
request-headers api_url path init s h = (ground arith, ground arith, ground arith)

-- A caller that gives headers sends these alone: the credentials of the session are not among them
-- unless the caller put them there.
pub request_of_headers :
    (api_url path : String) (init : RequestInit) (own : Dict String) (s : Session)
    → init.headers ≡ some own
    → (request api_url path init s).headers ≡ own
unfolding request
request_of_headers api_url path init own s h = ground arith

-- The JSON of a response whose status is from 200 to 299.
abbrev pub json_of : {T : Type 0} → Response T → Option T
json_of (rejected reason) = none
json_of (responded status text json) = if is_ok status then some json else none

abbrev pub unauthorized : {T : Type 0} → Response T → Bool
unauthorized (rejected reason) = false
unauthorized (responded status text json) = status == 401

abbrev pub value : {T : Type 0} → Result T → Option T
value (ok json) = some json
value (error reason) = none

module _ {T : Type 0} (digits : ℕ → String) (browser : Bool) (path : String) (s : Session) where
  -- `apiFetch` gives the JSON of a response from 200 to 299 and throws otherwise, and signs out
  -- exactly on a 401 in a browser whose session was confirmed.
  pub receive_lem :
      (r : Response T)
      → (value (receive digits browser path s r).0 ≡ json_of r)
        × ((receive digits browser path s r).1 ≡ unauthorized r && browser && s.session_ready)
  unfolding receive
  receive_lem (rejected reason) = (refl, refl)
  receive_lem (responded status text json) = (ground arith, ground arith)

-- The calls of the sidebar.
pub data Report : Type 0 where
  user : Option String → Report
  token : Option String → Report

pub report : Report → Session → Session
report (user email) s = set_auth_user email s
report (token t) s = set_auth_token t s

pub reports : List Report → Session → Session
reports [] s = s
reports (r ∷ rest) s = reports rest (report r s)

-- Whether a report carries a credential.
abbrev pub carries : Report → Bool
carries (user email) = truthy email
carries (token t) = truthy t

session_ready-reports_from :
    (rs : List Report) (s : Session)
    → (reports rs s).session_ready ≡ s.session_ready || any carries rs
unfolding reports report set_auth_user set_auth_token
session_ready-reports_from [] s = ground arith
session_ready-reports_from (user email ∷ rest) s =
    ground (arith, session_ready-reports_from rest (set_auth_user email s))
session_ready-reports_from (token t ∷ rest) s =
    ground (arith, session_ready-reports_from rest (set_auth_token t s))

-- The session is ready exactly when some report carried a credential; one that takes a credential
-- away does not undo that.
pub session_ready-reports : (rs : List Report) → (reports rs initial).session_ready ≡ any carries rs
session_ready-reports rs = session_ready-reports_from rs initial

-- After any reports of the sidebar, a response signs the user out only if one of them carried a
-- credential, the code runs in a browser and the status is 401.
pub receive-reports :
    {T : Type 0} (digits : ℕ → String) (browser : Bool) (path : String) (rs : List Report)
    (r : Response T)
    → (receive digits browser path (reports rs initial) r).1
      ≡ unauthorized r && browser && any carries rs
receive-reports digits browser path rs r =
    rw (← session_ready-reports rs) (receive_lem digits browser path (reports rs initial) r).1

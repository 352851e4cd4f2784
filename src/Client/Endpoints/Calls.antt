-- ===== src/Client/Endpoints/Calls.antt =====
-- Every call of `apiClient` as the request that it becomes: lib/api/client.ts.
use project_hawkeye.Base.{
  String, true, not, ◌||◌, ◌&&◌, or_else, List, [], ◌∷◌, Option, none, some, is_some, if◌then◌else◌,
  ◌≡◌, refl,
}
use project_hawkeye.Base.Dict
use project_hawkeye.Base.Dict.{Dict}
use project_hawkeye.Base.Strings.{is_filled, truthy, ◌+++◌}
use project_hawkeye.Client.Session.{Session, Method, RequestInit, Request, request}
use project_hawkeye.Client.Session.Laws.{request-headers}
use project_hawkeye.Client.Endpoints.Route.{
  Route, Body, no_body, given, field, is_wellformed, allows_body,
}
use project_hawkeye.Client.Endpoints.Runs.{RunCall, run_call, run_call-bodies}
use project_hawkeye.Client.Endpoints.Projects.{ProjectCall, project_call, project_call-bodies}
use project_hawkeye.Client.Endpoints.Suites.{SuiteCall, suite_call, suite_call-bodies}
use project_hawkeye.Client.Endpoints.Settings.{SettingCall, setting_call, setting_call-bodies}
use project_hawkeye.Client.Endpoints.Accounts.{AccountCall, account_call, account_call-bodies}

pub data Call : Type 0 where
  of_runs : (c : RunCall) → Call
  of_projects : (c : ProjectCall) → Call
  of_suites : (c : SuiteCall) → Call
  of_settings : (c : SettingCall) → Call
  of_accounts : (c : AccountCall) → Call

abbrev pub route : Call → Route
route (of_runs c) = run_call c
route (of_projects c) = project_call c
route (of_suites c) = suite_call c
route (of_settings c) = setting_call c
route (of_accounts c) = account_call c

-- The segments of a path, each behind a slash.
abbrev pub path_text : List String → String
path_text [] = ""
path_text (segment ∷ rest) = "/" +++ segment +++ path_text rest

-- What is asked of a request: no body where there must be none, and the headers of its session
abbrev pub IsSentFor : Session → Request → Type 0
IsSentFor s r =
    ((not (is_some r.body) || allows_body r.method) ≡ true)
    × (Dict.lookup "Content-Type" r.headers ≡ some "application/json")
    × (Dict.lookup "Authorization" r.headers
        ≡ (if truthy s.auth_token then some ("Bearer " +++ or_else s.auth_token "") else none))
    × (Dict.lookup "X-User-Email" r.headers ≡ (
        if not (truthy s.auth_token) && truthy s.auth_email
        then some (or_else s.auth_email "")
        else none))

-- `URLSearchParams` and the JSON of an object with one property belong to the browser.
module _ (encode : Dict String → String) (json : String → Option String → String) where
  -- `qs ? `?${qs}` : ""`
  abbrev pub query_text : Option (Dict String) → String
  query_text none = ""
  query_text (some params) = let qs = encode params in (if is_filled qs then "?" +++ qs else "")

  abbrev pub body_text : Body → Option String
  body_text no_body = none
  body_text (given text) = some text
  body_text (field name value) = some (json name value)

  abbrev pub init_of : Route → RequestInit
  init_of r = record { method = some r.method; headers = none; body = body_text r.body }

  unfoldable pub send : String → Session → Call → Request
  unfolding request
  send api_url s c =
      request api_url (path_text (route c).path +++ query_text (route c).query) (init_of (route c))
        s

  route-is_wellformed : (c : Call) → is_wellformed (route c) ≡ true
  route-is_wellformed (of_runs c) = run_call-bodies c
  route-is_wellformed (of_projects c) = project_call-bodies c
  route-is_wellformed (of_suites c) = suite_call-bodies c
  route-is_wellformed (of_settings c) = setting_call-bodies c
  route-is_wellformed (of_accounts c) = account_call-bodies c

  bodies :
      (m : Method) (b : Body) (path : List String) (query : Option (Dict String))
      → is_wellformed (record { method = m; path = path; query = query; body = b }) ≡ true
      → (not (is_some (body_text b)) || allows_body m) ≡ true
  bodies m no_body path query h = refl
  bodies m (given text) path query h = h
  bodies m (field name value) path query h = h

  -- Every call of the client, in every session: a request that is a GET or a DELETE has no body; each
  -- is of type JSON, and names the user by the token if there is one, else by the e-mail if there is
  -- one, else not at all.
  pub send_lem : (api_url : String) (s : Session) (c : Call) → IsSentFor s (send api_url s c)
  unfolding send
  send_lem api_url s c =
      let r = route c in
      let url = path_text r.path +++ query_text r.query in
      let (content, token, email) = request-headers api_url url (init_of r) s refl in
      (
        unfold request in bodies r.method r.body r.path r.query (route-is_wellformed c),
        content,
        token,
        email,
      )

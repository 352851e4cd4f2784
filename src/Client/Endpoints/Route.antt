-- ===== src/Client/Endpoints/Route.antt =====
-- What a call of `apiClient` asks for: a method, the segments of a path, a query and a body. The
-- JSON that a caller hands over is its text.
use project_hawkeye.Base.{String, Bool, true, false, List, ◌∷◌, Option}
use project_hawkeye.Base.Dict.{Dict}
use project_hawkeye.Client.Session.{Method, get, delete}

-- `JSON.stringify({ name: value })`, with null for `none`, or a text that the caller gives
pub data Body : Type 0 where
  no_body : Body
  given : (json : String) → Body
  field : (name : String) (value : Option String) → Body

pub record Route : Type 0 where
  pub method : Method
  pub path : List String
  pub query : Option (Dict String)
  pub body : Body

-- `/api/projects/${projectId}/...`
abbrev pub in_project : String → List String → List String
in_project project rest = "api" ∷ "projects" ∷ project ∷ rest

-- `fetch` refuses a GET with a body; the server reads none of a DELETE.
abbrev pub allows_body : Method → Bool
allows_body get = false
allows_body delete = false
allows_body _ = true

abbrev pub is_wellformed : Route → Bool
is_wellformed r = elim r.body [
  | no_body ↦ true
  | given json ↦ allows_body r.method
  | field name value ↦ allows_body r.method
]

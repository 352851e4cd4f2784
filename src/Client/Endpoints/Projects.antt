-- ===== src/Client/Endpoints/Projects.antt =====
-- Projects, their members and their test cases: the calls of `apiClient`, Frontend/hawkeye-web/src/lib/api/client.ts.
use project_hawkeye.Base.{String, [], ◌∷◌, Option, none, some, or_else, ◌≡◌, refl, true}
use project_hawkeye.Base.Dict.{Dict}
use project_hawkeye.Client.Session.{get, post, put, patch, delete, spread}
use project_hawkeye.Client.Endpoints.Route.{Route, no_body, given, field, in_project, is_wellformed}

pub data ProjectCall : Type 0 where
  get_projects : ProjectCall
  get_project : (project : String) → ProjectCall
  create_project : (body : String) → ProjectCall
  update_project : (project : String) → (body : String) → ProjectCall
  archive_project : (project : String) → ProjectCall
  get_project_stats : (project : String) → ProjectCall
  get_project_runs : (project : String) → ProjectCall
  get_project_members : (project : String) → ProjectCall
  add_project_member : (project : String) → (body : String) → ProjectCall
  update_project_member : (project : String) → (member : String) → (body : String) → ProjectCall
  remove_project_member : (project : String) → (member : String) → ProjectCall
  list_project_test_cases : (project : String) → (params : Option (Dict String)) → ProjectCall
  get_project_test_case : (project : String) → (tc : String) → ProjectCall
  get_test_case_runs : (project : String) → (tc : String) → ProjectCall
  create_project_test_case : (project : String) → (body : String) → ProjectCall
  update_project_test_case : (project : String) → (tc : String) → (body : String) → ProjectCall
  archive_project_test_case : (project : String) → (tc : String) → ProjectCall
  clone_project_test_case : (project : String) → (tc : String) → ProjectCall
  import_yaml : (project : String) → (yaml_content : String) → ProjectCall

unfoldable pub project_call : ProjectCall → Route
project_call get_projects = record {
  method = get;
  path = "api" ∷ "projects" ∷ [];
  query = none;
  body = no_body;
}
project_call (get_project project) = record {
  method = get;
  path = in_project project [];
  query = none;
  body = no_body;
}
project_call (create_project body) = record {
  method = post;
  path = "api" ∷ "projects" ∷ [];
  query = none;
  body = given body;
}
project_call (update_project project body) = record {
  method = patch;
  path = in_project project [];
  query = none;
  body = given body;
}
project_call (archive_project project) = record {
  method = delete;
  path = in_project project [];
  query = none;
  body = no_body;
}
project_call (get_project_stats project) = record {
  method = get;
  path = in_project project ("stats" ∷ []);
  query = none;
  body = no_body;
}
project_call (get_project_runs project) = record {
  method = get;
  path = in_project project ("runs" ∷ []);
  query = none;
  body = no_body;
}
project_call (get_project_members project) = record {
  method = get;
  path = in_project project ("members" ∷ []);
  query = none;
  body = no_body;
}
project_call (add_project_member project body) = record {
  method = post;
  path = in_project project ("members" ∷ []);
  query = none;
  body = given body;
}
project_call (update_project_member project member body) = record {
  method = patch;
  path = in_project project ("members" ∷ member ∷ []);
  query = none;
  body = given body;
}
project_call (remove_project_member project member) = record {
  method = delete;
  path = in_project project ("members" ∷ member ∷ []);
  query = none;
  body = no_body;
}
project_call (list_project_test_cases project params) = record {
  method = get;
  path = in_project project ("test-cases" ∷ []);
  query = some (spread (("status", "active") ∷ []) (or_else params []));
  body = no_body;
}
project_call (get_project_test_case project tc) = record {
  method = get;
  path = in_project project ("test-cases" ∷ tc ∷ []);
  query = none;
  body = no_body;
}
project_call (get_test_case_runs project tc) = record {
  method = get;
  path = in_project project ("test-cases" ∷ tc ∷ "runs" ∷ []);
  query = none;
  body = no_body;
}
project_call (create_project_test_case project body) = record {
  method = post;
  path = in_project project ("test-cases" ∷ []);
  query = none;
  body = given body;
}
project_call (update_project_test_case project tc body) = record {
  method = put;
  path = in_project project ("test-cases" ∷ tc ∷ []);
  query = none;
  body = given body;
}
project_call (archive_project_test_case project tc) = record {
  method = delete;
  path = in_project project ("test-cases" ∷ tc ∷ []);
  query = none;
  body = no_body;
}
project_call (clone_project_test_case project tc) = record {
  method = post;
  path = in_project project ("test-cases" ∷ tc ∷ "clone" ∷ []);
  query = none;
  body = no_body;
}
project_call (import_yaml project yaml_content) = record {
  method = post;
  path = in_project project ("test-cases" ∷ "import-yaml" ∷ []);
  query = none;
  body = field "yaml_content" (some yaml_content);
}

pub project_call-bodies : (c : ProjectCall) → is_wellformed (project_call c) ≡ true
unfolding project_call
project_call-bodies get_projects = refl
project_call-bodies (get_project _) = refl
project_call-bodies (create_project _) = refl
project_call-bodies (update_project _ _) = refl
project_call-bodies (archive_project _) = refl
project_call-bodies (get_project_stats _) = refl
project_call-bodies (get_project_runs _) = refl
project_call-bodies (get_project_members _) = refl
project_call-bodies (add_project_member _ _) = refl
project_call-bodies (update_project_member _ _ _) = refl
project_call-bodies (remove_project_member _ _) = refl
project_call-bodies (list_project_test_cases _ _) = refl
project_call-bodies (get_project_test_case _ _) = refl
project_call-bodies (get_test_case_runs _ _) = refl
project_call-bodies (create_project_test_case _ _) = refl
project_call-bodies (update_project_test_case _ _ _) = refl
project_call-bodies (archive_project_test_case _ _) = refl
project_call-bodies (clone_project_test_case _ _) = refl
project_call-bodies (import_yaml _ _) = refl

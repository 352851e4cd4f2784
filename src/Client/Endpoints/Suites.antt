-- ===== src/Client/Endpoints/Suites.antt =====
-- Suites and their schedules: the calls of `apiClient`, Frontend/hawkeye-web/src/lib/api/client.ts.
use project_hawkeye.Base.{String, [], ◌∷◌, Option, none, some, or_else, ◌≡◌, refl, true}
use project_hawkeye.Client.Session.{get, post, put, delete}
use project_hawkeye.Client.Endpoints.Route.{Route, no_body, given, field, in_project, is_wellformed}

pub data SuiteCall : Type 0 where
  list_suites : (project : String) → SuiteCall
  create_suite : (project : String) → (body : String) → SuiteCall
  get_suite : (project : String) → (suite : String) → SuiteCall
  update_suite : (project : String) → (suite : String) → (body : String) → SuiteCall
  delete_suite : (project : String) → (suite : String) → SuiteCall
  add_suite_member : (project : String) → (suite : String) → (test_case_id : String) → SuiteCall
  remove_suite_member : (project : String) → (suite : String) → (tc : String) → SuiteCall
  get_suite_schedule : (project : String) → (suite : String) → SuiteCall
  set_suite_schedule : (project : String) → (suite : String) → (body : String) → SuiteCall
  get_suite_runs : (project : String) → (suite : String) → SuiteCall
  get_suite_groups : (project : String) → SuiteCall
  update_suite_group : (project : String) → (suite : String) → (group : Option String) → SuiteCall
  run_suite : (project : String) → (suite : String) → (body : Option String) → SuiteCall
  list_schedules : (project : String) → (suite : String) → SuiteCall
  create_schedule : (project : String) → (suite : String) → (body : String) → SuiteCall
  delete_schedule : (project : String) → (suite : String) → (schedule : String) → SuiteCall

unfoldable pub suite_call : SuiteCall → Route
suite_call (list_suites project) = record {
  method = get;
  path = in_project project ("suites" ∷ []);
  query = none;
  body = no_body;
}
suite_call (create_suite project body) = record {
  method = post;
  path = in_project project ("suites" ∷ []);
  query = none;
  body = given body;
}
suite_call (get_suite project suite) = record {
  method = get;
  path = in_project project ("suites" ∷ suite ∷ []);
  query = none;
  body = no_body;
}
suite_call (update_suite project suite body) = record {
  method = put;
  path = in_project project ("suites" ∷ suite ∷ []);
  query = none;
  body = given body;
}
suite_call (delete_suite project suite) = record {
  method = delete;
  path = in_project project ("suites" ∷ suite ∷ []);
  query = none;
  body = no_body;
}
suite_call (add_suite_member project suite test_case_id) = record {
  method = post;
  path = in_project project ("suites" ∷ suite ∷ "members" ∷ []);
  query = none;
  body = field "test_case_id" (some test_case_id);
}
suite_call (remove_suite_member project suite tc) = record {
  method = delete;
  path = in_project project ("suites" ∷ suite ∷ "members" ∷ tc ∷ []);
  query = none;
  body = no_body;
}
suite_call (get_suite_schedule project suite) = record {
  method = get;
  path = in_project project ("suites" ∷ suite ∷ "schedule" ∷ []);
  query = none;
  body = no_body;
}
suite_call (set_suite_schedule project suite body) = record {
  method = put;
  path = in_project project ("suites" ∷ suite ∷ "schedule" ∷ []);
  query = none;
  body = given body;
}
suite_call (get_suite_runs project suite) = record {
  method = get;
  path = in_project project ("suites" ∷ suite ∷ "runs" ∷ []);
  query = none;
  body = no_body;
}
suite_call (get_suite_groups project) = record {
  method = get;
  path = in_project project ("suite-groups" ∷ []);
  query = none;
  body = no_body;
}
suite_call (update_suite_group project suite group) = record {
  method = put;
  path = in_project project ("suites" ∷ suite ∷ []);
  query = none;
  body = field "group" group;
}
suite_call (run_suite project suite body) = record {
  method = post;
  path = in_project project ("suites" ∷ suite ∷ "run" ∷ []);
  query = none;
  body = given (or_else body "{}");
}
suite_call (list_schedules project suite) = record {
  method = get;
  path = in_project project ("suites" ∷ suite ∷ "schedules" ∷ []);
  query = none;
  body = no_body;
}
suite_call (create_schedule project suite body) = record {
  method = post;
  path = in_project project ("suites" ∷ suite ∷ "schedules" ∷ []);
  query = none;
  body = given body;
}
suite_call (delete_schedule project suite schedule) = record {
  method = delete;
  path = in_project project ("suites" ∷ suite ∷ "schedules" ∷ schedule ∷ []);
  query = none;
  body = no_body;
}

pub suite_call-bodies : (c : SuiteCall) → is_wellformed (suite_call c) ≡ true
unfolding suite_call
suite_call-bodies (list_suites _) = refl
suite_call-bodies (create_suite _ _) = refl
suite_call-bodies (get_suite _ _) = refl
suite_call-bodies (update_suite _ _ _) = refl
suite_call-bodies (delete_suite _ _) = refl
suite_call-bodies (add_suite_member _ _ _) = refl
suite_call-bodies (remove_suite_member _ _ _) = refl
suite_call-bodies (get_suite_schedule _ _) = refl
suite_call-bodies (set_suite_schedule _ _ _) = refl
suite_call-bodies (get_suite_runs _ _) = refl
suite_call-bodies (get_suite_groups _) = refl
suite_call-bodies (update_suite_group _ _ _) = refl
suite_call-bodies (run_suite _ _ _) = refl
suite_call-bodies (list_schedules _ _) = refl
suite_call-bodies (create_schedule _ _ _) = refl
suite_call-bodies (delete_schedule _ _ _) = refl

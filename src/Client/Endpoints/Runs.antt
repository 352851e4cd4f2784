-- ===== src/Client/Endpoints/Runs.antt =====
-- The runs and the old test cases: the calls of `apiClient`, Frontend/hawkeye-web/src/lib/api/client.ts.
use project_hawkeye.Base.{String, [], ◌∷◌, none, ◌≡◌, refl, true}
use project_hawkeye.Client.Session.{get, post, delete}
use project_hawkeye.Client.Endpoints.Route.{Route, no_body, given, is_wellformed}

pub data RunCall : Type 0 where
  get_runs : RunCall
  get_run : (id : String) → RunCall
  get_run_traces : (id : String) → RunCall
  create_run : (req : String) → RunCall
  delete_run : (id : String) → RunCall
  get_run_observe_url : (id : String) → RunCall
  get_run_artifacts : (id : String) → RunCall
  get_test_cases : RunCall

unfoldable pub run_call : RunCall → Route
run_call get_runs = record {
  method = get;
  path = "api" ∷ "runs" ∷ [];
  query = none;
  body = no_body;
}
run_call (get_run id) = record {
  method = get;
  path = "api" ∷ "runs" ∷ id ∷ [];
  query = none;
  body = no_body;
}
run_call (get_run_traces id) = record {
  method = get;
  path = "api" ∷ "runs" ∷ id ∷ "traces" ∷ [];
  query = none;
  body = no_body;
}
run_call (create_run req) = record {
  method = post;
  path = "api" ∷ "runs" ∷ [];
  query = none;
  body = given req;
}
run_call (delete_run id) = record {
  method = delete;
  path = "api" ∷ "runs" ∷ id ∷ [];
  query = none;
  body = no_body;
}
run_call (get_run_observe_url id) = record {
  method = get;
  path = "api" ∷ "runs" ∷ id ∷ "observe" ∷ [];
  query = none;
  body = no_body;
}
run_call (get_run_artifacts id) = record {
  method = get;
  path = "api" ∷ "runs" ∷ id ∷ "artifacts" ∷ [];
  query = none;
  body = no_body;
}
run_call get_test_cases = record {
  method = get;
  path = "api" ∷ "test-cases" ∷ [];
  query = none;
  body = no_body;
}

pub run_call-bodies : (c : RunCall) → is_wellformed (run_call c) ≡ true
unfolding run_call
run_call-bodies get_runs = refl
run_call-bodies (get_run _) = refl
run_call-bodies (get_run_traces _) = refl
run_call-bodies (create_run _) = refl
run_call-bodies (delete_run _) = refl
run_call-bodies (get_run_observe_url _) = refl
run_call-bodies (get_run_artifacts _) = refl
run_call-bodies get_test_cases = refl

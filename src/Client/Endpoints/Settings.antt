-- ===== src/Client/Endpoints/Settings.antt =====
-- The vault, the environments and the baselines of a project: the calls of `apiClient`, Frontend/hawkeye-web/src/lib/api/client.ts.
use project_hawkeye.Base.{String, [], ◌∷◌, Option, none, some, ◌≡◌, refl, true}
use project_hawkeye.Base.Dict.{Dict}
use project_hawkeye.Client.Session.{get, post, put, delete}
use project_hawkeye.Client.Endpoints.Route.{Route, no_body, given, field, in_project, is_wellformed}

pub data SettingCall : Type 0 where
  list_secrets : (project : String) → (params : Option (Dict String)) → SettingCall
  create_secret : (project : String) → (body : String) → SettingCall
  reveal_secret : (project : String) → (secret : String) → SettingCall
  update_secret : (project : String) → (secret : String) → (body : String) → SettingCall
  delete_secret : (project : String) → (secret : String) → SettingCall
  list_environments : (project : String) → SettingCall
  create_environment : (project : String) → (body : String) → SettingCall
  update_environment : (project : String) → (env : String) → (body : String) → SettingCall
  delete_environment : (project : String) → (env : String) → SettingCall
  list_baselines : (project : String) → (params : Option (Dict String)) → SettingCall
  get_baseline : (project : String) → (baseline : String) → SettingCall
  approve_baseline : (project : String) → (baseline : String) → SettingCall
  reject_baseline : (project : String) → (baseline : String) → (reason : String) → SettingCall

unfoldable pub setting_call : SettingCall → Route
setting_call (list_secrets project params) = record {
  method = get;
  path = in_project project ("vault" ∷ []);
  query = params;
  body = no_body;
}
setting_call (create_secret project body) = record {
  method = post;
  path = in_project project ("vault" ∷ []);
  query = none;
  body = given body;
}
setting_call (reveal_secret project secret) = record {
  method = get;
  path = in_project project ("vault" ∷ secret ∷ "reveal" ∷ []);
  query = none;
  body = no_body;
}
setting_call (update_secret project secret body) = record {
  method = put;
  path = in_project project ("vault" ∷ secret ∷ []);
  query = none;
  body = given body;
}
setting_call (delete_secret project secret) = record {
  method = delete;
  path = in_project project ("vault" ∷ secret ∷ []);
  query = none;
  body = no_body;
}
setting_call (list_environments project) = record {
  method = get;
  path = in_project project ("environments" ∷ []);
  query = none;
  body = no_body;
}
setting_call (create_environment project body) = record {
  method = post;
  path = in_project project ("environments" ∷ []);
  query = none;
  body = given body;
}
setting_call (update_environment project env body) = record {
  method = put;
  path = in_project project ("environments" ∷ env ∷ []);
  query = none;
  body = given body;
}
setting_call (delete_environment project env) = record {
  method = delete;
  path = in_project project ("environments" ∷ env ∷ []);
  query = none;
  body = no_body;
}
setting_call (list_baselines project params) = record {
  method = get;
  path = in_project project ("baselines" ∷ []);
  query = params;
  body = no_body;
}
setting_call (get_baseline project baseline) = record {
  method = get;
  path = in_project project ("baselines" ∷ baseline ∷ []);
  query = none;
  body = no_body;
}
setting_call (approve_baseline project baseline) = record {
  method = post;
  path = in_project project ("baselines" ∷ baseline ∷ "approve" ∷ []);
  query = none;
  body = no_body;
}
setting_call (reject_baseline project baseline reason) = record {
  method = post;
  path = in_project project ("baselines" ∷ baseline ∷ "reject" ∷ []);
  query = none;
  body = field "reason" (some reason);
}

pub setting_call-bodies : (c : SettingCall) → is_wellformed (setting_call c) ≡ true
unfolding setting_call
setting_call-bodies (list_secrets _ _) = refl
setting_call-bodies (create_secret _ _) = refl
setting_call-bodies (reveal_secret _ _) = refl
setting_call-bodies (update_secret _ _ _) = refl
setting_call-bodies (delete_secret _ _) = refl
setting_call-bodies (list_environments _) = refl
setting_call-bodies (create_environment _ _) = refl
setting_call-bodies (update_environment _ _ _) = refl
setting_call-bodies (delete_environment _ _) = refl
setting_call-bodies (list_baselines _ _) = refl
setting_call-bodies (get_baseline _ _) = refl
setting_call-bodies (approve_baseline _ _) = refl
setting_call-bodies (reject_baseline _ _ _) = refl

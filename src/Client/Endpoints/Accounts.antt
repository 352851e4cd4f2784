-- ===== src/Client/Endpoints/Accounts.antt =====
-- Billing, organizations and the identity: the calls of `apiClient`, Frontend/hawkeye-web/src/lib/api/client.ts.
use project_hawkeye.Base.{String, [], ◌∷◌, none, some, ◌≡◌, refl, true}
use project_hawkeye.Client.Session.{get, post, patch, delete}
use project_hawkeye.Client.Endpoints.Route.{Route, no_body, given, field, is_wellformed}

pub data AccountCall : Type 0 where
  get_usage : AccountCall
  get_billing_plans : AccountCall
  create_billing_checkout : (body : String) → AccountCall
  create_billing_portal : (body : String) → AccountCall
  get_org : (org : String) → AccountCall
  update_org : (org : String) → (body : String) → AccountCall
  list_members : (org : String) → AccountCall
  update_member_role : (org : String) → (user : String) → (role : String) → AccountCall
  remove_member : (org : String) → (user : String) → AccountCall
  invite_member : (org : String) → (body : String) → AccountCall
  list_invitations : (org : String) → AccountCall
  revoke_invitation : (org : String) → (invitation : String) → AccountCall
  get_me : AccountCall

unfoldable pub account_call : AccountCall → Route
account_call get_usage = record {
  method = get;
  path = "api" ∷ "usage" ∷ [];
  query = none;
  body = no_body;
}
account_call get_billing_plans = record {
  method = get;
  path = "api" ∷ "billing" ∷ "plans" ∷ [];
  query = none;
  body = no_body;
}
account_call (create_billing_checkout body) = record {
  method = post;
  path = "api" ∷ "billing" ∷ "checkout" ∷ [];
  query = none;
  body = given body;
}
account_call (create_billing_portal body) = record {
  method = post;
  path = "api" ∷ "billing" ∷ "portal" ∷ [];
  query = none;
  body = given body;
}
account_call (get_org org) = record {
  method = get;
  path = "api" ∷ "orgs" ∷ org ∷ [];
  query = none;
  body = no_body;
}
account_call (update_org org body) = record {
  method = patch;
  path = "api" ∷ "orgs" ∷ org ∷ [];
  query = none;
  body = given body;
}
account_call (list_members org) = record {
  method = get;
  path = "api" ∷ "orgs" ∷ org ∷ "members" ∷ [];
  query = none;
  body = no_body;
}
account_call (update_member_role org user role) = record {
  method = patch;
  path = "api" ∷ "orgs" ∷ org ∷ "members" ∷ user ∷ [];
  query = none;
  body = field "role" (some role);
}
account_call (remove_member org user) = record {
  method = delete;
  path = "api" ∷ "orgs" ∷ org ∷ "members" ∷ user ∷ [];
  query = none;
  body = no_body;
}
account_call (invite_member org body) = record {
  method = post;
  path = "api" ∷ "orgs" ∷ org ∷ "invitations" ∷ [];
  query = none;
  body = given body;
}
account_call (list_invitations org) = record {
  method = get;
  path = "api" ∷ "orgs" ∷ org ∷ "invitations" ∷ [];
  query = none;
  body = no_body;
}
account_call (revoke_invitation org invitation) = record {
  method = delete;
  path = "api" ∷ "orgs" ∷ org ∷ "invitations" ∷ invitation ∷ [];
  query = none;
  body = no_body;
}
account_call get_me = record {
  method = get;
  path = "api" ∷ "me" ∷ [];
  query = none;
  body = no_body;
}

pub account_call-bodies : (c : AccountCall) → is_wellformed (account_call c) ≡ true
unfolding account_call
account_call-bodies get_usage = refl
account_call-bodies get_billing_plans = refl
account_call-bodies (create_billing_checkout _) = refl
account_call-bodies (create_billing_portal _) = refl
account_call-bodies (get_org _) = refl
account_call-bodies (update_org _ _) = refl
account_call-bodies (list_members _) = refl
account_call-bodies (update_member_role _ _ _) = refl
account_call-bodies (remove_member _ _) = refl
account_call-bodies (invite_member _ _) = refl
account_call-bodies (list_invitations _) = refl
account_call-bodies (revoke_invitation _ _) = refl
account_call-bodies get_me = refl

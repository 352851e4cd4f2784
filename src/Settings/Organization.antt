-- ===== src/Settings/Organization.antt =====
-- The members and invitations of an organization, settings/org/page.tsx, and the visual baselines
-- that wait for a review, visual-baselines/page.tsx: the handlers, on the answers of the server.
use project_hawkeye.Base.{
  String, Bool, false, not, ◌||◌, List, [], ◌∷◌, ◌++◌, map, Option, none, some, filter, or_else,
  if◌then◌else◌, str_eq,
}
use project_hawkeye.Base.Strings.{is_filled, includes}

pub record OrgMember : Type 0 where
  pub id : String
  pub email : String
  pub name : String
  pub avatar_url : Option String
  pub role : String
  pub joined_at : String

pub record Invitation : Type 0 where
  pub id : String
  pub email : String
  pub role : String
  pub status : String

pub record Organization : Type 0 where
  pub members : List OrgMember
  pub invitations : List Invitation
  pub invite_open : Bool
  pub invite_email : String
  pub invite_role : String

-- `ok` says whether the server answered the request.
unfoldable pub handle_role_change : String → String → Bool → Organization → Organization
handle_role_change user role ok o =
    if ok
    then record o {
      members =
          map (λ (m : OrgMember). if str_eq m.id user then record m { role = role } else m)
            o.members;
    }
    else o

unfoldable pub handle_remove_member : String → (confirmed ok : Bool) → Organization → Organization
handle_remove_member user confirmed ok o =
    if not confirmed
    then o
    else if ok
    then record o { members = filter (λ m. not (str_eq m.id user)) o.members }
    else o

unfoldable pub handle_invite : (String → String) → Option Invitation → Organization → Organization
handle_invite trim answer o = if not (is_filled (trim o.invite_email)) then o else elim answer [
  | none ↦ o
  | some i ↦ record o {
    invitations = o.invitations ++ i ∷ [];
    invite_open = false;
    invite_email = "";
    invite_role = "developer";
  }
]

unfoldable pub handle_revoke_invitation : String → Bool → Organization → Organization
handle_revoke_invitation id ok o =
    if ok then record o { invitations = filter (λ i. not (str_eq i.id id)) o.invitations } else o

pub data BaselineStatus : Type 0 where
  pending_review approved rejected : BaselineStatus

pub record Baseline : Type 0 where
  pub id : String
  pub project_id : String
  pub test_case_id : Option String
  pub run_id : Option String
  pub checkpoint_id : Option String
  pub status : BaselineStatus
  pub diff_pct : Option String
  pub screenshot_url : Option String
  pub baseline_url : Option String
  pub created_at : String
  pub reviewed_at : Option String
  pub review_note : Option String

pub record Queue : Type 0 where
  pub baselines : List Baseline
  pub loading : Bool
  pub acting : Option String

-- `load`
unfoldable pub load_baselines : Option (List Baseline) → Queue → Queue
load_baselines none s = record s { loading = false }
load_baselines (some bs) s = record s { baselines = bs; loading = false }

-- `handleApprove` and `handleReject` do the same to the page.
unfoldable pub handle_approve : String → Bool → Queue → Queue
handle_approve id ok s = record s {
  baselines = if ok then filter (λ b. not (str_eq b.id id)) s.baselines else s.baselines;
  acting = none;
}

unfoldable pub handle_reject : String → Bool → Queue → Queue
handle_reject id ok s = record s {
  baselines = if ok then filter (λ b. not (str_eq b.id id)) s.baselines else s.baselines;
  acting = none;
}

unfoldable pub filtered_baselines :
    (trim lower : String → String) → String → List Baseline → List Baseline
filtered_baselines trim lower q baselines =
    filter
      (λ b.
        not (is_filled (trim q))
        || includes (lower (or_else b.test_case_id "")) (lower q)
        || includes (lower (or_else b.checkpoint_id "")) (lower q)
        || includes (lower (or_else b.run_id "")) (lower q))
      baselines

-- ===== src/Settings/Members.antt =====
-- The members of a project and its form: the handlers of settings/project/page.tsx, on the answers
-- of the server (an exception is its text).
use project_hawkeye.Base.{
  String, Bool, false, ◌||◌, List, [], ◌∷◌, ◌++◌, map, not, Option, none, some, filter,
  if◌then◌else◌, str_eq,
}
use project_hawkeye.Base.Strings.{is_filled, includes}
use project_hawkeye.Projects.{ProjectState, set_current_project}
use project_hawkeye.Notifications.Store.{
  AlertPrefs, NotificationState, set_alert_prefs, get_alert_prefs,
}

pub data ProjectRole : Type 0 where
  admin developer viewer : ProjectRole

pub record ProjectMember : Type 0 where
  pub id : String
  pub project_id : String
  pub user_email : String
  pub user_name : Option String
  pub role : ProjectRole
  pub added_at : String

pub record MemberForm : Type 0 where
  pub open_form : Bool
  pub email : String
  pub name : String
  pub role : ProjectRole

pub record Team : Type 0 where
  pub members : List ProjectMember
  pub form : MemberForm

abbrev pub empty_form : MemberForm
empty_form = record { open_form = false; email = ""; name = ""; role = viewer }

unfoldable pub add_member : (String → String) → Option ProjectMember → Team → Team
add_member trim answer t = if not (is_filled (trim t.form.email)) then t else elim answer [
  | none ↦ t
  | some m ↦ record { members = t.members ++ m ∷ []; form = empty_form }
]

unfoldable pub change_role : String → Option ProjectMember → Team → Team
change_role id none t = t
change_role id (some updated) t = record t {
  members = map (λ m. if str_eq m.id id then updated else m) t.members;
}

unfoldable pub remove_member : String → Bool → Team → Team
remove_member id ok t =
    if ok then record t { members = filter (λ m. not (str_eq m.id id)) t.members } else t

-- The messages on an exception.
unfoldable pub add_member_failure : String → String
add_member_failure text = if includes text "409" then "Already a member" else "Failed to add member"

unfoldable pub change_role_failure : String → String
change_role_failure text =
    if includes text "last admin"
    then "Cannot remove the last admin from a project."
    else "Failed to update role"

-- `handleSave`, on the name that the server answers with
unfoldable pub save_project : Option String → ProjectState → ProjectState
save_project none s = s
save_project (some name) s = elim s.current_project [
  | none ↦ s
  | some p ↦ set_current_project (some (record p { name = name })) s
]

-- `handleArchive`: the store afterwards, and the message on an exception.
unfoldable pub archive_project : (confirmed ok : Bool) → ProjectState → ProjectState
archive_project confirmed ok s =
    if not confirmed then s else if ok then set_current_project none s else s

unfoldable pub archive_failure : (lower : String → String) → String → String
archive_failure lower text =
    if includes text "409" || includes (lower text) "active run"
    then "Cancel all active runs before archiving this project."
    else "Failed to archive project"

-- `updatePref`, with what it changes in the preferences
unfoldable pub update_pref :
    (project : String) → (AlertPrefs → AlertPrefs) → NotificationState → NotificationState
update_pref project change s =
    if is_filled project then set_alert_prefs project (change (get_alert_prefs project s)) s else s

-- ===== src/Notifications/Store.antt =====
-- Frontend/hawkeye-web/src/lib/notifications/store.ts, the actions of `useNotificationStore`.
-- An action is a function on the state; what `Date` and `Math.random` give is an argument.
pub mod Updates
pub mod Bounds
pub mod Isolation
pub mod Reading
use project_hawkeye.Base.{
  ℕ, String, Bool, true, false, not, List, [], ◌∷◌, map, Option, none, some, if◌then◌else◌, length,
  take, filter, or_else, str_eq,
}
use project_hawkeye.Base.Dict
use project_hawkeye.Base.Dict.{Dict}
use project_hawkeye.Base.Strings.{truthy, ◌+++◌}

pub data NotifLevel : Type 0 where
  success error warning info : NotifLevel

pub record Notification : Type 0 where
  pub id : String
  pub level : NotifLevel
  pub title : String
  pub body : Option String
  pub href : Option String
  pub project_id : Option String
  pub run_id : Option String
  pub created_at : String
  pub read : Bool

-- `Omit<Notification, "id" | "createdAt" | "read">`
pub record Draft : Type 0 where
  pub level : NotifLevel
  pub title : String
  pub body : Option String
  pub href : Option String
  pub project_id : Option String
  pub run_id : Option String

pub record AlertPrefs : Type 0 where
  pub on_failure : Bool
  pub on_success : Bool
  pub pass_rate_threshold : Option ℕ

pub record UserData : Type 0 where
  pub notifications : List Notification
  pub alert_prefs : Dict AlertPrefs

pub record NotificationState : Type 0 where
  pub by_user : Dict UserData
  pub active_email : Option String

-- What one call of `add` reads: `Date.now()` in digits, the five random characters, and the time
-- as an ISO text.
pub record Stamp : Type 0 where
  pub now : String
  pub random : String
  pub iso : String

abbrev pub default_prefs : AlertPrefs
default_prefs = record { on_failure = true; on_success = false; pass_rate_threshold = none }

abbrev pub empty_user : UserData
empty_user = record { notifications = []; alert_prefs = [] }

abbrev pub initial : NotificationState
initial = record { by_user = []; active_email = none }

abbrev pub limit : ℕ
limit = 100

unfoldable pub set_active_email : Option String → NotificationState → NotificationState
set_active_email email s = record s { active_email = email }

-- `{ ...s.byUser, [email]: f(s.byUser[email] ?? emptyUser()) }`
unfoldable pub update_user : String → (UserData → UserData) → NotificationState → NotificationState
update_user email f s = record s {
  by_user = Dict.set email (f (or_else (Dict.lookup email s.by_user) empty_user)) s.by_user;
}

-- The shape of each action: nothing without an active user (`null` and `""` are both falsy).
unfoldable pub update_active : (UserData → UserData) → NotificationState → NotificationState
unfolding update_user
update_active f s = elim s.active_email [
  | none ↦ s
  | some email ↦ if str_eq email "" then s else update_user email f s
]

abbrev pub stamped : Draft → Stamp → Notification
stamped n t = record {
  id = t.now +++ "-" +++ t.random;
  level = n.level;
  title = n.title;
  body = n.body;
  href = n.href;
  project_id = n.project_id;
  run_id = n.run_id;
  created_at = t.iso;
  read = false;
}

abbrev pub mark : Notification → Notification
mark n = record n { read = true }

-- What each action does to the data of the active user.
abbrev pub added : Notification → UserData → UserData
added n u = record u { notifications = take limit (n ∷ u.notifications) }

abbrev pub marked : String → UserData → UserData
marked id u = record u {
  notifications = map (λ n. if str_eq n.id id then mark n else n) u.notifications;
}

abbrev pub all_marked : UserData → UserData
all_marked u = record u { notifications = map mark u.notifications }

abbrev pub removed : String → UserData → UserData
removed id u = record u { notifications = filter (λ n. not (str_eq n.id id)) u.notifications }

abbrev pub cleared : UserData → UserData
cleared u = record u { notifications = [] }

abbrev pub with_prefs : String → AlertPrefs → UserData → UserData
with_prefs project prefs u = record u { alert_prefs = Dict.set project prefs u.alert_prefs }

unfoldable pub add : Draft → Stamp → NotificationState → NotificationState
add n t = update_active (added (stamped n t))

pub mark_read : String → NotificationState → NotificationState
mark_read id = update_active (marked id)

pub mark_all_read : NotificationState → NotificationState
mark_all_read = update_active all_marked

pub remove : String → NotificationState → NotificationState
remove id = update_active (removed id)

pub clear : NotificationState → NotificationState
clear = update_active cleared

pub set_alert_prefs : String → AlertPrefs → NotificationState → NotificationState
set_alert_prefs project prefs = update_active (with_prefs project prefs)

-- The data that the active user has, `activeEmail ? byUser[activeEmail] : undefined`.
unfoldable pub active_user : NotificationState → Option UserData
active_user s = elim s.active_email [
  | none ↦ none
  | some email ↦ if str_eq email "" then none else Dict.lookup email s.by_user
]

unfoldable pub get_alert_prefs : String → NotificationState → AlertPrefs
unfolding active_user
get_alert_prefs project s = elim (active_user s) [
  | none ↦ default_prefs
  | some u ↦ or_else (Dict.lookup project u.alert_prefs) default_prefs
]

-- `useNotifications()`
unfoldable pub use_notifications : NotificationState → List Notification
unfolding active_user
use_notifications s = elim (active_user s) [ none ↦ [] | some u ↦ u.notifications ]

unfoldable pub unread_count : List Notification → ℕ
unread_count ns = length (filter (λ n. not n.read) ns)

-- The actions as data, for sessions of the store.
pub data Action : Type 0 where
  set_active : Option String → Action
  add_draft : Draft → Stamp → Action
  mark_one : String → Action
  mark_all : Action
  remove_one : String → Action
  clear_all : Action
  set_prefs : String → AlertPrefs → Action

pub act : Action → NotificationState → NotificationState
unfolding set_active_email add mark_read mark_all_read remove clear set_alert_prefs
act (set_active email) s = set_active_email email s
act (add_draft n t) s = add n t s
act (mark_one id) s = mark_read id s
act mark_all s = mark_all_read s
act (remove_one id) s = remove id s
act clear_all s = clear s
act (set_prefs project prefs) s = set_alert_prefs project prefs s

pub run : List Action → NotificationState → NotificationState
run [] s = s
run (a ∷ rest) s = run rest (act a s)

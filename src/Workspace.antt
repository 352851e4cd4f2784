-- ===== src/Workspace.antt =====
-- The frame of the workspace, which carries the session into the stores:
-- Frontend/hawkeye-web/src/components/app/unified-sidebar.tsx and
-- src/app/app/(workspace)/[projectId]/layout.tsx there.
pub mod Credentials
pub mod Current
pub mod Navigation
pub mod Stale
use project_hawkeye.Base.{
  String, Bool, true, false, not, List, [], ◌∷◌, Option, none, some, if◌then◌else◌, str_eq, ◌&&◌,
}
use project_hawkeye.Client.Session.{Session, set_auth_user, set_auth_token}
use project_hawkeye.Notifications.Store.{NotificationState, set_active_email}
use project_hawkeye.Projects.{
  ProjectSummary, ProjectState, staging, set_current_project, set_project_for_user,
  get_project_for_user,
}

pub data Status : Type 0 where
  loading authenticated unauthenticated : Status

-- What `useSession` gives: `session?.user?.email`, the token of the session and the status
pub record Login : Type 0 where
  pub email : Option String
  pub access_token : Option String
  pub status : Status

-- The dependencies of the two effects of the sidebar when they ran last; `none` before the first run
pub record Frame : Type 0 where
  pub seen_email : Option (Option String)
  pub seen_status : Option Status
  pub session : Session
  pub projects : ProjectState
  pub notifications : NotificationState

-- `Object.is` on the dependencies
unfoldable pub same_email : Option String → Option String → Bool
same_email none none = true
same_email none (some b) = false
same_email (some a) none = false
same_email (some a) (some b) = str_eq a b

unfoldable pub same_status : Status → Status → Bool
same_status loading loading = true
same_status authenticated authenticated = true
same_status unauthenticated unauthenticated = true
same_status a b = false

abbrev pub is_seen : Option (Option String) → Option String → Bool
is_seen none email = false
is_seen (some last) email = same_email last email

abbrev pub is_seen_status : Option Status → Status → Bool
is_seen_status none status = false
is_seen_status (some last) status = same_status last status

-- The body of the layout effect
abbrev pub report_login : Login → Session → Session
report_login l s = set_auth_token l.access_token (set_auth_user l.email s)

abbrev pub saved_for : Option String → ProjectState → Option ProjectSummary
saved_for none s = none
saved_for (some e) s = if str_eq e "" then none else get_project_for_user e s

-- The body of the other one
unfoldable pub adopt : Status → Option String → ProjectState → ProjectState
adopt loading email s = s
adopt authenticated email s = set_current_project (saved_for email s) s
adopt unauthenticated email s = set_current_project (saved_for email s) s

-- A commit of the sidebar with these data of the session
unfoldable pub commit : Login → Frame → Frame
unfolding same_email same_status adopt
commit l w =
    let same = is_seen w.seen_email l.email in
    let same_all = same && is_seen_status w.seen_status l.status in
    record {
      seen_email = some l.email;
      seen_status = some l.status;
      session = if same then w.session else report_login l w.session;
      projects = if same_all then w.projects else adopt l.status l.email w.projects;
      notifications =
          if same_all then w.notifications else set_active_email l.email w.notifications;
    }

-- The sidebar goes and comes with the layout that shows it.
unfoldable pub remount : Frame → Frame
remount w = record w { seen_email = none; seen_status = none }

unfoldable pub commits : List Login → Frame → Frame
commits [] w = w
commits (l ∷ rest) w = commits rest (commit l w)

abbrev has_id : String → Option ProjectSummary → Bool
has_id id none = false
has_id id (some p) = str_eq p.id id

-- `ProjectLayout`: whether its effect asks for the project of the URL; `rendered` is the current
-- project of the render.
unfoldable pub asks : String → Option ProjectSummary → Bool
asks project_id rendered = not (has_id project_id rendered)

-- What `getProject` gives
pub record ProjectInfo : Type 0 where
  pub id : String
  pub name : String

abbrev pub summary : ProjectInfo → ProjectSummary
summary proj = record { id = proj.id; name = proj.name; environment = staging; last_run_ok = none }

abbrev pub save_for : Option String → ProjectSummary → ProjectState → ProjectState
save_for none p s = s
save_for (some e) p s = if str_eq e "" then s else set_project_for_user e (some p) s

-- The answer to the request of the effect, whose `session` is that of its render, and whether the
-- page is left for `/app`; `none` is a rejection.
unfoldable pub answered : Option String → Option ProjectInfo → Frame → Frame × Bool
answered email none w = (w, true)
answered email (some proj) w = (
  record w {
    projects = save_for email (summary proj) (set_current_project (some (summary proj)) w.projects);
  },
  false,
)

-- What happens to the frame: a commit of the sidebar, its return with another layout, and the answer
-- to a request of `ProjectLayout`.
pub data Event : Type 0 where
  committed : Login → Event
  remounted : Event
  project_given : (email : Option String) → (answer : Option ProjectInfo) → Event

unfoldable pub step : Event → Frame → Frame
unfolding commit remount answered
step (committed l) w = commit l w
step remounted w = remount w
step (project_given email answer) w = (answered email answer w).0

unfoldable pub run : List Event → Frame → Frame
run [] w = w
run (e ∷ rest) w = run rest (step e w)

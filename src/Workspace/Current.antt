-- ===== src/Workspace/Current.antt =====
-- The current project of the workspace, by the session and by the URL.
use project_hawkeye.Base.{
  String, Bool, true, false, ◌&&◌, Option, none, some, if◌then◌else◌, ◌≡◌, refl, ap, ◌∙◌, arith,
  str_eq, eq_iff,
}
use project_hawkeye.Projects.{
  ProjectSummary, ProjectState, set_current_project, set_project_for_user, get_project_for_user,
  get_project_for_user-set_project_for_user,
}
use project_hawkeye.Workspace.{
  loading, authenticated, unauthenticated, Status, Login, Frame, same_status, saved_for, adopt,
  commit, remount, ProjectInfo, summary, answered, asks, is_seen, is_seen_status,
}

abbrev pub is_loading : Status → Bool
is_loading loading = true
is_loading authenticated = false
is_loading unauthenticated = false

adopt_ready :
    (status : Status) (email : Option String) (s : ProjectState)
    → is_loading status ≡ false
    → adopt status email s ≡ set_current_project (saved_for email s) s
unfolding adopt
adopt_ready loading email s ready = cc
adopt_ready authenticated email s ready = refl
adopt_ready unauthenticated email s ready = refl

-- A commit whose e-mail or status is new, and whose session is not loading, makes the project that
-- its user had open last the current one, or none, and keeps what each user had open.
pub commit_lem :
    (l : Login) (w : Frame)
    → is_seen w.seen_email l.email && is_seen_status w.seen_status l.status ≡ false
    → is_loading l.status ≡ false
    → ((commit l w).projects.current_project ≡ saved_for l.email w.projects)
      × ((commit l w).projects.projects_by_user ≡ w.projects.projects_by_user)
unfolding commit set_current_project
commit_lem l w new ready =
    let adopted = adopt_ready l.status l.email w.projects ready in
    (
      rw new (ap (λ (s : ProjectState). s.current_project) adopted),
      rw new (ap (λ (s : ProjectState). s.projects_by_user) adopted),
    )

-- The projects after an answer for a user
abbrev pub given_to : String → ProjectInfo → Frame → ProjectState
given_to e proj w = (answered (some e) (some proj) w).0.projects

-- With a user of the session, the answer for a project makes it the current one and the last one of
-- this user, and `ProjectLayout` asks for it no more; what other users had open stays.
pub answered_lem :
    (e j : String) (proj : ProjectInfo) (w : Frame)
    → str_eq e "" ≡ false
    → ((given_to e proj w).current_project ≡ some (summary proj))
      × (get_project_for_user j (given_to e proj w)
          ≡ (if str_eq e j then some (summary proj) else get_project_for_user j w.projects))
      × (asks proj.id (given_to e proj w).current_project ≡ false)
unfolding answered set_current_project asks
answered_lem e j proj w filled =
    let current = set_current_project (some (summary proj)) w.projects in
    rw filled (
      unfold set_project_for_user in refl,
      get_project_for_user-set_project_for_user e j (some (summary proj)) current
          ∙ unfold get_project_for_user in refl,
      unfold set_project_for_user in ground (arith, eq_iff proj.id proj.id),
    )

-- The session on its way
abbrev pub waiting : Login
waiting = record { email = none; access_token = none; status = loading }

-- The frame that opens at a project, is given it, and only then hears of the session
abbrev pub given_early : ProjectInfo → Frame → Frame
given_early proj w = (answered none (some proj) (commit waiting (remount w))).0

not_seen : (status : Status) → is_loading status ≡ false → same_status loading status ≡ false
unfolding same_status
not_seen loading ready = cc
not_seen authenticated ready = refl
not_seen unauthenticated ready = refl

and_false : (a b : Bool) → b ≡ false → a && b ≡ false
and_false a b h = ground arith

pub saved_for-current :
    (email : Option String) (p : Option ProjectSummary) (s : ProjectState)
    → saved_for email (record s { current_project = p }) ≡ saved_for email s
unfolding get_project_for_user
saved_for-current none p s = refl
saved_for-current (some e) p s = refl

-- A project that is given while the session is still loading is lost to the session: when it has
-- come, the current project is the one that its user had open before, whatever the URL names.
pub commit-answered :
    (l : Login) (proj : ProjectInfo) (w : Frame)
    → is_loading l.status ≡ false
    → ((given_early proj w).projects.current_project ≡ some (summary proj))
      × ((commit l (given_early proj w)).projects.current_project ≡ saved_for l.email w.projects)
unfolding answered set_current_project commit remount adopt
commit-answered l proj w ready = (
  refl,
  (commit_lem l (given_early proj w)
        (and_false (is_seen (some none) l.email) _ (not_seen l.status ready)) ready).0
      ∙ saved_for-current l.email (some (summary proj)) w.projects,
)

-- ===== src/Workspace/Stale.antt =====
-- What the settings of a project leave in the store for the next session.
use project_hawkeye.Base.{true, false, none, some, ◌≡◌, refl, ◌∙◌}
use project_hawkeye.Projects.{ProjectSummary, ProjectState, set_current_project}
use project_hawkeye.Settings.Members.{archive_project}
use project_hawkeye.Workspace.Current.{commit_lem, is_loading, saved_for-current}
use project_hawkeye.Workspace.{Login, Frame, commit, remount, saved_for}

-- The frame after the settings changed the projects, when the sidebar comes with another layout
abbrev pub returned : (ProjectState → ProjectState) → Frame → Frame
returned change w = remount (record w { projects = change w.projects })

-- An archived project stays the last one of its user: no project is current right after, but when the
-- sidebar returns with the session, the archived project is the current one again.
pub commit-archive_project :
    (l : Login) (p : ProjectSummary) (w : Frame)
    → is_loading l.status ≡ false
    → saved_for l.email w.projects ≡ some p
    → ((archive_project true true w.projects).current_project ≡ none)
      × ((commit l (returned (archive_project true true) w)).projects.current_project ≡ some p)
unfolding archive_project set_current_project remount
commit-archive_project l p w ready saved = (
  refl,
  (commit_lem l (returned (archive_project true true) w) refl ready).0
      ∙ saved_for-current l.email none w.projects
      ∙ saved,
)

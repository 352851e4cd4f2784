-- ===== src/Workspace/Credentials.antt =====
-- The credentials that the sidebar gives to the API client.
use project_hawkeye.Base.{
  String, true, List, [], ◌∷◌, Option, none, some, ◌≡◌, refl, ap, ◌∙◌, arith, Bool-cases, inl, inr,
  eq_iff,
}
use project_hawkeye.Client.Session.{Session, set_auth_user, set_auth_token}
use project_hawkeye.Notifications.Store.{set_active_email}
use project_hawkeye.Projects.{ProjectState}
use project_hawkeye.Workspace.{
  Login, Frame, same_email, commit, commits, remount, answered, is_seen_status, Event, committed,
  remounted, project_given, step, run,
}

same_email_refl : (e : Option String) → same_email e e ≡ true
unfolding same_email
same_email_refl none = refl
same_email_refl (some a) = ground (arith, eq_iff a a)

same_email-eq : (a b : Option String) → same_email a b ≡ true → a ≡ b
unfolding same_email
same_email-eq none none h = refl
same_email-eq none (some b) h = cc
same_email-eq (some a) none h = cc
same_email-eq (some a) (some b) h = ap some ((eq_iff a b).0 h)

-- The commits that follow have the same e-mail.
abbrev pub AreOf : Option String → List Login → Type 0
AreOf email [] = Unit
AreOf email (l ∷ rest) = (l.email ≡ email) × AreOf email rest

session-commits :
    (email : Option String) (later : List Login) (w : Frame)
    → w.seen_email ≡ some email
    → AreOf email later
    → (commits later w).session ≡ w.session
unfolding commits commit
session-commits email [] w seen of = refl
session-commits email (l ∷ later) w seen (same, of) =
    session-commits email later (commit l w) (ap some same) of
    ∙ rw (seen, same, same_email_refl email) refl

-- While the sidebar stays and the e-mail is the same, the client keeps the token of the first commit,
-- whatever tokens the session has later.
pub auth_token-commits :
    (l : Login) (later : List Login) (w : Frame)
    → AreOf l.email later
    → ((commits (l ∷ later) (remount w)).session.auth_token ≡ l.access_token)
      × ((commits (l ∷ later) (remount w)).session.auth_email ≡ l.email)
unfolding commits commit remount set_auth_token set_auth_user
auth_token-commits l later w of =
    let same = session-commits l.email later (commit l (remount w)) refl of in
    (ap (λ (s : Session). s.auth_token) same, ap (λ (s : Session). s.auth_email) same)

-- The client and the notifications belong to the e-mail that was seen last.
abbrev pub AgreesOn : Option (Option String) → Frame → Type 0
AgreesOn none w = Unit
AgreesOn (some email) w = (w.session.auth_email ≡ email) × (w.notifications.active_email ≡ email)

commit_at-AgreesOn :
    (seen : Option (Option String)) (l : Login) (w : Frame)
    → w.seen_email ≡ seen
    → AgreesOn seen w
    → AgreesOn (some l.email) (commit l w)
unfolding commit set_auth_token set_auth_user set_active_email
commit_at-AgreesOn none l w at_none agrees = rw at_none (refl, refl)
commit_at-AgreesOn (some email) l w at_email (auth, active) =
    elim (Bool-cases (same_email email l.email)) [
      | inr other ↦ rw (at_email, other) (refl, refl)
      | inl same ↦
          let eq = same_email-eq email l.email same in
          elim (Bool-cases (is_seen_status w.seen_status l.status)) [
            | inl all ↦ rw (at_email, same, all) (auth ∙ eq, active ∙ eq)
            | inr some_other ↦ rw (at_email, same, some_other) (auth ∙ eq, refl)
          ]
    ]

AgreesOn-projects :
    (seen : Option (Option String)) (w : Frame) (s : ProjectState)
    → AgreesOn seen w
    → AgreesOn seen (record w { projects = s })
AgreesOn-projects none w s agrees = tt
AgreesOn-projects (some email) w s agrees = agrees

step-AgreesOn :
    (e : Event) (w : Frame) → AgreesOn w.seen_email w → AgreesOn (step e w).seen_email (step e w)
unfolding step commit remount answered
step-AgreesOn (committed l) w agrees = commit_at-AgreesOn w.seen_email l w refl agrees
step-AgreesOn remounted w agrees = tt
step-AgreesOn (project_given email none) w agrees = agrees
step-AgreesOn (project_given email (some proj)) w agrees = AgreesOn-projects w.seen_email w _ agrees

-- After any commits, returns and answers, the e-mail that was seen last is that of the client's
-- requests and that of the active notifications: both change with the session together.
pub run-AgreesOn :
    (events : List Event) (w : Frame)
    → AgreesOn w.seen_email w
    → AgreesOn (run events w).seen_email (run events w)
unfolding run
run-AgreesOn [] w agrees = agrees
run-AgreesOn (e ∷ rest) w agrees = run-AgreesOn rest (step e w) (step-AgreesOn e w agrees)

-- ===== src/Notifications/Store/Isolation.antt =====
-- The actions of store.ts and the entries of the users.
use project_hawkeye.Base.{
  String, Bool, true, false, some, ◌≡◌, refl, ◌≢◌, inl, inr, arith, eq_iff, ap,
}
use project_hawkeye.Base.Dict
use project_hawkeye.Base.Strings.{truthy}
use project_hawkeye.Notifications.Store.{
  UserData, NotificationState, update_active, Action, set_active, add_draft, mark_one, mark_all,
  remove_one, clear_all, set_prefs, act,
}
use project_hawkeye.Notifications.Store.Updates.{lookup-update_user, update_active-cases}

lookup-update_active :
    (f : UserData → UserData) (s : NotificationState) (j : String)
    → s.active_email ≢ some j
    → Dict.lookup j (update_active f s).by_user ≡ Dict.lookup j s.by_user
lookup-update_active f s j other = elim (update_active-cases f s) [
  | inl same ↦ ap (λ t. Dict.lookup j t.by_user) same
  | inr (email, active, filled, e) ↦
      rw e (ground (arith, lookup-update_user f s email j, eq_iff email j, other))
]

-- No action changes the data of a user who is not the active one.
pub lookup-act :
    (a : Action) (s : NotificationState) (j : String)
    → s.active_email ≢ some j
    → Dict.lookup j (act a s).by_user ≡ Dict.lookup j s.by_user
unfolding act
lookup-act (set_active email) s j other = refl
lookup-act (add_draft n t) s j other = lookup-update_active _ s j other
lookup-act (mark_one id) s j other = lookup-update_active _ s j other
lookup-act mark_all s j other = lookup-update_active _ s j other
lookup-act (remove_one id) s j other = lookup-update_active _ s j other
lookup-act clear_all s j other = lookup-update_active _ s j other
lookup-act (set_prefs project prefs) s j other = lookup-update_active _ s j other

-- Whether an action is one of those that write an entry.
abbrev pub writes : Action → Bool
writes (set_active email) = false
writes _ = true

pub update_active_of_no_user :
    (f : UserData → UserData) (s : NotificationState)
    → truthy s.active_email ≡ false
    → update_active f s ≡ s
unfolding update_active
update_active_of_no_user f s h = ground arith

-- Without an active user, or with the empty text for one, the actions that write do nothing.
pub act_of_no_user :
    (a : Action) (s : NotificationState)
    → truthy s.active_email ≡ false
    → writes a ≡ true
    → act a s ≡ s
unfolding act
act_of_no_user (set_active email) s h w = cc
act_of_no_user (add_draft n t) s h w = update_active_of_no_user _ s h
act_of_no_user (mark_one id) s h w = update_active_of_no_user _ s h
act_of_no_user mark_all s h w = update_active_of_no_user _ s h
act_of_no_user (remove_one id) s h w = update_active_of_no_user _ s h
act_of_no_user clear_all s h w = update_active_of_no_user _ s h
act_of_no_user (set_prefs project prefs) s h w = update_active_of_no_user _ s h

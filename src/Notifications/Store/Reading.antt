-- ===== src/Notifications/Store/Reading.antt =====
-- What the selectors of store.ts read after its actions.
use project_hawkeye.Base.{
  ℕ, ◌+◌, ◌<◌, ◌≤◌, zero, suc, String, Bool, true, not, ◌&&◌, List, [], ◌∷◌, map, some, ◌≡◌, refl,
  ap, arith, if◌then◌else◌, or_else, length, take, filter, every, str_eq, eq_iff, ◌∙◌, inl, inr,
  Option-cases,
}
use project_hawkeye.Base.Dict
use project_hawkeye.Base.Strings.{truthy}
use project_hawkeye.Notifications.Store.{
  Notification, Draft, Stamp, AlertPrefs, UserData, NotificationState, empty_user, limit,
  update_active, stamped, mark, add, mark_read, mark_all_read, remove, set_alert_prefs, active_user,
  get_alert_prefs, use_notifications, unread_count, with_prefs,
}
use project_hawkeye.Notifications.Store.Updates.{lookup-update_user}

unread_count-map-mark : (ns : List Notification) → unread_count (map mark ns) ≡ 0
unfolding unread_count
unread_count-map-mark [] = refl
unread_count-map-mark (n ∷ ns) = unread_count-map-mark ns

-- The unread notifications with an identifier.
abbrev pub unread_with : String → List Notification → ℕ
unread_with id ns = length (filter (λ n. not n.read && str_eq n.id id) ns)

abbrev mark_with : String → Notification → Notification
mark_with id n = if str_eq n.id id then mark n else n

unread_count-map-mark_with :
    (id : String) (ns : List Notification)
    → unread_count (map (mark_with id) ns) + unread_with id ns ≡ unread_count ns
unfolding unread_count
unread_count-map-mark_with id [] = omega arith
unread_count-map-mark_with id (n ∷ ns) = ground (arith, unread_count-map-mark_with id ns)

abbrev without : String → List Notification → List Notification
without id = filter (λ n. not (str_eq n.id id))

-- No notification has the identifier.
abbrev pub fresh : String → List Notification → Bool
fresh id ns = every (λ n. not (str_eq n.id id)) ns

without-fresh : (id : String) (ns : List Notification) → fresh id ns ≡ true → without id ns ≡ ns
without-fresh id [] h = refl
without-fresh id (n ∷ ns) h = ground (arith, without-fresh id ns)

take-of_le : (k : ℕ) (ns : List Notification) → length ns ≤ k → take k ns ≡ ns
take-of_le zero [] h = refl
take-of_le zero (n ∷ ns) h = absurd (omega arith)
take-of_le (suc k) [] h = refl
take-of_le (suc k) (n ∷ ns) h = ap (n ∷◌) (take-of_le k ns (omega arith))

module _ (s : NotificationState) (signed_in : truthy s.active_email ≡ true) where
  active_user-update_active :
      (f : UserData → UserData)
      → active_user (update_active f s) ≡ some (f (or_else (active_user s) empty_user))
  unfolding active_user update_active
  active_user-update_active f = elim (Option-cases s.active_email) [
    | inl e ↦ ground arith
    | inr (email, e) ↦ ground (arith, lookup-update_user f s email email, eq_iff email email)
  ]

  notifications-update_active :
      (f : UserData → UserData)
      → use_notifications (update_active f s)
        ≡ (f (or_else (active_user s) empty_user)).notifications
  unfolding use_notifications
  notifications-update_active f = rw (active_user-update_active f, use_notifications)

  use_notifications_lem : (or_else (active_user s) empty_user).notifications ≡ use_notifications s
  unfolding use_notifications
  use_notifications_lem = ground arith

  -- With an active user, `add` puts the stamped notification first, unread, and keeps the newest
  -- hundred.
  pub use_notifications-add :
      (n : Draft) (t : Stamp)
      → use_notifications (add n t s) ≡ take limit (stamped n t ∷ use_notifications s)
  unfolding add
  use_notifications-add n t =
      notifications-update_active _ ∙ ap (λ l. take limit (stamped n t ∷ l)) use_notifications_lem

  use_notifications-remove :
      (id : String) → use_notifications (remove id s) ≡ without id (use_notifications s)
  unfolding remove
  use_notifications-remove id =
      notifications-update_active _ ∙ ap (without id) use_notifications_lem

  -- With an active user, nothing is unread after `markAllRead`.
  pub unread_count-mark_all_read : unread_count (use_notifications (mark_all_read s)) ≡ 0
  unfolding mark_all_read
  unread_count-mark_all_read =
      ap unread_count (notifications-update_active _) ∙ unread_count-map-mark _

  -- With an active user, `markRead` lowers the unread count by the unread notifications that have
  -- the identifier.
  pub unread_count-mark_read :
      (id : String)
      → unread_count (use_notifications (mark_read id s)) + unread_with id (use_notifications s)
        ≡ unread_count (use_notifications s)
  unfolding mark_read
  unread_count-mark_read id =
      rw (notifications-update_active _, use_notifications_lem)
        (unread_count-map-mark_with id (use_notifications s))

  -- With an active user, the preferences that `setAlertPrefs` writes for a project are the ones
  -- that `getAlertPrefs` reads there, and those of other projects stay.
  pub get_alert_prefs-set_alert_prefs :
      (p q : String) (prefs : AlertPrefs)
      → get_alert_prefs q (set_alert_prefs p prefs s)
        ≡ (if str_eq p q then prefs else get_alert_prefs q s)
  unfolding get_alert_prefs set_alert_prefs Dict.lookup
  get_alert_prefs-set_alert_prefs p q prefs = elim (Option-cases (active_user s)) [
    | inl e ↦ ground (
      arith,
      active_user-update_active (with_prefs p prefs),
      eq_iff p q,
      Dict.lookup-set p q prefs [],
    )
    | inr (u, e) ↦ ground (
      arith,
      active_user-update_active (with_prefs p prefs),
      eq_iff p q,
      Dict.lookup-set p q prefs u.alert_prefs,
    )
  ]

active_email-update_active :
    (f : UserData → UserData) (s : NotificationState)
    → (update_active f s).active_email ≡ s.active_email
unfolding update_active
active_email-update_active f s = ground arith

-- With an active user and fewer than a hundred notifications, none of which has the new identifier,
-- `remove` of that identifier undoes `add`.
pub use_notifications-remove-add :
    (s : NotificationState) (n : Draft) (t : Stamp)
    → truthy s.active_email ≡ true
    → length (use_notifications s) < limit
    → fresh (stamped n t).id (use_notifications s) ≡ true
    → use_notifications (remove (stamped n t).id (add n t s)) ≡ use_notifications s
use_notifications-remove-add s n t signed_in room new =
    let still : truthy (add n t s).active_email ≡ true =
      unfold add in rw (active_email-update_active _ s) signed_in in
    use_notifications-remove (add n t s) still (stamped n t).id
    ∙ ap (without (stamped n t).id) (use_notifications-add s signed_in n t)
    ∙ ground (
      arith,
      eq_iff (stamped n t).id (stamped n t).id,
      take-of_le 99 (use_notifications s) (omega arith),
      without-fresh (stamped n t).id (use_notifications s) new,
    )

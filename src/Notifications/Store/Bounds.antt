-- ===== src/Notifications/Store/Bounds.antt =====
-- The lengths of the users' lists in store.ts.
use project_hawkeye.Base.{
  ◌≤◌, String, List, [], ◌∷◌, some, ◌≡◌, arith, length, length-take, length-map, length-filter-le,
  inl, inr, eq_iff, Option-cases,
}
use project_hawkeye.Base.Dict
use project_hawkeye.Notifications.Store.{
  UserData, NotificationState, limit, update_user, update_active, initial, Action, set_active,
  add_draft, mark_one, mark_all, remove_one, clear_all, set_prefs, act, run,
}
use project_hawkeye.Notifications.Store.Updates.{lookup-update_user, update_active-cases}

abbrev Within : UserData → Type 0
Within u = length u.notifications ≤ limit

-- Every user's list is within the limit, and no user has two entries.
pub record IsBounded (s : NotificationState) : Type 0 where
  pub within : (email : String) (u : UserData) → Dict.lookup email s.by_user ≡ some u → Within u
  pub distinct : Dict.Distinct s.by_user

module _ (f : UserData → UserData) (keeps : (u : UserData) → Within u → Within (f u)) where
  update_user-Within :
      (s : NotificationState)
      → IsBounded s
      → (email j : String) (u : UserData) → Dict.lookup j (update_user email f s).by_user ≡ some u
      → Within u
  update_user-Within s b email j u e = elim (Option-cases (Dict.lookup email s.by_user)) [
    | inl new ↦ ground (
      arith,
      lookup-update_user f s email j,
      eq_iff email j,
      b.within j u,
      keeps u,
      keeps (record { notifications = []; alert_prefs = [] }),
    )
    | inr (old, here) ↦ ground (
      arith,
      lookup-update_user f s email j,
      eq_iff email j,
      b.within j u,
      b.within email old here,
      keeps old,
    )
  ]

  update_active-IsBounded : (s : NotificationState) → IsBounded s → IsBounded (update_active f s)
  update_active-IsBounded s b = elim (update_active-cases f s) [
    | inl same ↦ rw same b
    | inr (email, active, filled, e) ↦ rw e (record {
      within = update_user-Within s b email;
      distinct = unfold update_user in Dict.set-Distinct email _ s.by_user b.distinct;
    })
  ]

-- Every action of the store keeps each list within the limit.
pub act-IsBounded : (a : Action) (s : NotificationState) → IsBounded s → IsBounded (act a s)
unfolding act
act-IsBounded (set_active email) s b = record { within = b.within; distinct = b.distinct }
act-IsBounded (add_draft n t) s b =
    update_active-IsBounded _ (λ u w. omega (arith, length-take 99 u.notifications)) s b
act-IsBounded (mark_one id) s b = update_active-IsBounded _ (λ u w. rw length-map w) s b
act-IsBounded mark_all s b = update_active-IsBounded _ (λ u w. rw length-map w) s b
act-IsBounded (remove_one id) s b =
    update_active-IsBounded _ (λ u w. omega (arith, length-filter-le {0})) s b
act-IsBounded clear_all s b = update_active-IsBounded _ (λ u w. omega arith) s b
act-IsBounded (set_prefs project prefs) s b = update_active-IsBounded _ (λ u w. w) s b

initial-IsBounded : IsBounded initial
unfolding Dict.lookup
initial-IsBounded = record { within = λ email u e. cc; distinct = tt }

run-act-IsBounded :
    (actions : List Action) (s : NotificationState) → IsBounded s → IsBounded (run actions s)
unfolding run
run-act-IsBounded [] s b = b
run-act-IsBounded (a ∷ rest) s b = run-act-IsBounded rest (act a s) (act-IsBounded a s b)

-- After any sequence of actions from the empty store, every user's list holds at most 100
-- notifications, and no user has two entries.
pub run-IsBounded : (actions : List Action) → IsBounded (run actions initial)
run-IsBounded actions = run-act-IsBounded actions initial initial-IsBounded

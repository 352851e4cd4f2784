-- ===== src/Notifications/Store/Updates.antt =====
-- What the two writing shapes of store.ts do to the entries.
use project_hawkeye.Base.{
  String, some, ◌≡◌, ◌≢◌, ◌⊎◌, inl, inr, if◌then◌else◌, or_else, str_eq, eq_iff, arith, Bool-cases,
  Option-cases,
}
use project_hawkeye.Base.Dict
use project_hawkeye.Notifications.Store.{
  UserData, NotificationState, empty_user, update_user, update_active,
}

module _ (f : UserData → UserData) (s : NotificationState) where
  pub lookup-update_user :
      (email j : String)
      → Dict.lookup j (update_user email f s).by_user ≡ (
          if str_eq email j
          then some (f (or_else (Dict.lookup email s.by_user) empty_user))
          else Dict.lookup j s.by_user)
  unfolding update_user
  lookup-update_user email j = Dict.lookup-set email j _ s.by_user

  -- An action either finds no active user and changes nothing, or writes that user's entry.
  pub update_active-cases :
      (update_active f s ≡ s)
      ⊎ ((email : String) × (s.active_email ≡ some email)
          × (email ≢ "")
          × (update_active f s ≡ update_user email f s))
  unfolding update_active
  update_active-cases = elim (Option-cases s.active_email) [
    | inl e ↦ inl (ground arith)
    | inr (email, e) ↦ elim (Bool-cases (str_eq email "")) [
      | inl blank ↦ inl (ground arith)
      | inr filled ↦ inr (email, e, ground (arith, eq_iff email ""), ground arith)
    ]
  ]

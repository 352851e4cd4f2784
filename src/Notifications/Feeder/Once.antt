-- ===== src/Notifications/Feeder/Once.antt =====
-- How often the feeder notifies about a run in the life of its component.
use project_hawkeye.Base.{
  ℕ, zero, suc, ◌+◌, ◌≤◌, String, Bool, false, List, [], ◌∷◌, Option, none, some, ◌≡◌, arith,
  if◌then◌else◌, length, take, filter, str_eq, eq_iff, inl, inr, is_some, Option-cases, Bool-cases,
}
use project_hawkeye.Base.Strings.{truthy, contains, contains-append, is_filled}
use project_hawkeye.Runs.{RunStatus, queued, running, passed, cancelled, RunSummary}
use project_hawkeye.Notifications.Store.{
  Notification, NotificationState, AlertPrefs, Draft, Stamp, stamped, add, use_notifications,
  get_alert_prefs, limit,
}
use project_hawkeye.Notifications.Store.Isolation.{update_active_of_no_user}
use project_hawkeye.Notifications.Store.Reading.{use_notifications-add}
use project_hawkeye.Notifications.Feeder.{Feeder, draft_at, draft_for, feed_run, feed, effect}

-- Which preference asks for a notification about a status, if any.
abbrev pub asks : AlertPrefs → RunStatus → Bool
asks prefs passed = prefs.on_success
asks prefs cancelled = false
asks prefs queued = false
asks prefs running = false
asks prefs _ = prefs.on_failure

module _ (prefs : AlertPrefs) (project : String) (run : RunSummary) where
  -- A draft is made exactly for the statuses that a preference asks for.
  pub is_some-draft_at : (s : RunStatus) → is_some (draft_at s prefs project run) ≡ asks prefs s
  unfolding draft_at
  is_some-draft_at passed = ground arith
  is_some-draft_at _ = ground arith

  -- The draft names the run.
  draft_at-run_id :
      (s : RunStatus) (d : Draft)
      → draft_at s prefs project run ≡ some d
      → d.run_id ≡ some run.run_id
  unfolding draft_at
  draft_at-run_id passed d e = ground arith
  draft_at-run_id _ d e = ground arith

-- Whether a notification's `runId` is the one given.
abbrev names : String → Option String → Bool
names id none = false
names id (some run) = str_eq run id

-- The notifications about a run.
abbrev pub count_for : String → List Notification → ℕ
count_for id ns = length (filter (λ n. names id n.run_id) ns)

count_for-take :
    (id : String) (k : ℕ) (ns : List Notification) → count_for id (take k ns) ≤ count_for id ns
count_for-take id zero ns = omega arith
count_for-take id (suc k) [] = omega arith
count_for-take id (suc k) (n ∷ ns) = ground (arith, count_for-take id k ns)

count_for-take-cons :
    (id : String) (k : ℕ) (n : Notification) (ns : List Notification)
    → count_for id (take k (n ∷ ns)) ≤ count_for id ns + (if names id n.run_id then 1 else 0)
count_for-take-cons id k n ns = ground (arith, count_for-take id k (n ∷ ns))

count_for-add :
    (id : String) (d : Draft) (t : Stamp) (s : NotificationState)
    → count_for id (use_notifications (add d t s))
      ≤ count_for id (use_notifications s) + (if names id d.run_id then 1 else 0)
count_for-add id d t s = elim (Bool-cases (truthy s.active_email)) [
  | inl signed_in ↦
      rw (use_notifications-add s signed_in d t)
        (count_for-take-cons id limit (stamped d t) (use_notifications s))
  | inr nobody ↦ unfold add in rw (update_active_of_no_user _ s nobody) (omega arith)
]

-- The notifications about a run that there are or may still come.
abbrev potential : String → Feeder → ℕ
potential id f =
    count_for id (use_notifications f.store) + (if contains id f.notified then 0 else 1)

module _ (id : String) (prefs : AlertPrefs) (project : String) (stamps : RunSummary → Stamp) where
  potential-feed_run :
      (run : RunSummary) (f : Feeder)
      → potential id (feed_run prefs project stamps run f) ≤ potential id f
  unfolding feed_run contains
  potential-feed_run run f = elim (Option-cases (draft_for prefs project run)) [
    | inl e ↦ ground (arith, contains-append id f.notified (run.run_id ∷ []))
    | inr (d, e) ↦ ground (
      arith,
      contains-append id f.notified (run.run_id ∷ []),
      eq_iff run.run_id id,
      count_for-add id d (stamps run) f.store,
      draft_at-run_id prefs project run run.status d e,
    )
  ]

  potential-feed :
      (runs : List RunSummary) (f : Feeder)
      → potential id (feed prefs project stamps runs f) ≤ potential id f
  unfolding feed
  potential-feed [] f = omega arith
  potential-feed (run ∷ runs) f =
      omega
        (arith, potential-feed runs (feed_run prefs project stamps run f), potential-feed_run run f)

-- One change of the polled list: the list, the project and the stamps of that round.
pub record Round : Type 0 where
  pub runs : Option (List RunSummary)
  pub project : Option String
  pub stamps : RunSummary → Stamp

unfoldable pub rounds : List Round → Feeder → Feeder
rounds [] f = f
rounds (r ∷ rest) f = rounds rest (effect r.runs r.project r.stamps f)

potential-effect :
    (id : String) (runs : Option (List RunSummary)) (project : Option String)
    (stamps : RunSummary → Stamp) (f : Feeder)
    → potential id (effect runs project stamps f) ≤ potential id f
unfolding effect
potential-effect id none project stamps f = omega arith
potential-effect id (some runs) none stamps f = omega arith
potential-effect id (some runs) (some project) stamps f = elim (Bool-cases (is_filled project)) [
  | inl here ↦ rw here (potential-feed id (get_alert_prefs project f.store) project stamps runs f)
  | inr blank ↦ rw blank (omega arith)
]

potential-rounds :
    (id : String) (rs : List Round) (f : Feeder) → potential id (rounds rs f) ≤ potential id f
unfolding rounds
potential-rounds id [] f = omega arith
potential-rounds id (r ∷ rest) f = omega (
  arith,
  potential-rounds id rest (effect r.runs r.project r.stamps f),
  potential-effect id r.runs r.project r.stamps f,
)

-- However often the list is polled and whatever it holds, the feeder raises the number of
-- notifications about a run by at most one.
pub count_for-rounds :
    (id : String) (rs : List Round) (f : Feeder)
    → count_for id (use_notifications (rounds rs f).store)
      ≤ count_for id (use_notifications f.store) + 1
count_for-rounds id rs f = ground (arith, potential-rounds id rs f)

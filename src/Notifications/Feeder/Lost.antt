-- ===== src/Notifications/Feeder/Lost.antt =====
-- What the feeder's memory of notified runs does to a repeated list.
use project_hawkeye.Base.{
  String, Bool, true, false, not, ◌||◌, List, [], ◌∷◌, Option, map, filter, any, none, some, str_eq,
  ◌&&◌, ◌≡◌, refl, sym, ap, ◌∙◌, arith, every, eq_iff, inl, inr, Option-cases, Bool-cases,
}
use project_hawkeye.Base.Strings.{truthy, is_filled, contains, contains-append}
use project_hawkeye.Runs.{RunSummary, is_terminal}
use project_hawkeye.Notifications.Store.{
  AlertPrefs, Stamp, stamped, added, add, set_active_email, get_alert_prefs,
}
use project_hawkeye.Notifications.Store.Isolation.{update_active_of_no_user}
use project_hawkeye.Notifications.Feeder.{Feeder, draft_for, feed_run, feed, effect}
use project_hawkeye.Notifications.Feeder.Once.{Round}

-- Every terminal run of the list is in the memory.
abbrev pub seen : List String → List RunSummary → Bool
seen notified = every (λ r. not (is_terminal r.status) || contains r.run_id notified)

module _ (prefs : AlertPrefs) (project : String) (stamps : RunSummary → Stamp) where
  -- A list that is in the memory changes nothing.
  pub feed_of_seen :
      (runs : List RunSummary) (f : Feeder)
      → seen f.notified runs ≡ true
      → feed prefs project stamps runs f ≡ f
  unfolding feed feed_run
  feed_of_seen [] f h = refl
  feed_of_seen (run ∷ runs) f h = ground (arith, feed_of_seen runs f)

  contains-feed :
      (id : String) (runs : List RunSummary) (f : Feeder)
      → contains id f.notified ≡ true
      → contains id (feed prefs project stamps runs f).notified ≡ true
  unfolding feed
  contains-feed id [] f h = h
  contains-feed id (run ∷ runs) f h =
      contains-feed id runs _
        (unfold feed_run in ground (arith, contains-append id f.notified (run.run_id ∷ [])))

  contains-feed_run :
      (run : RunSummary) (f : Feeder)
      → is_terminal run.status ≡ true
      → contains run.run_id (feed_run prefs project stamps run f).notified ≡ true
  unfolding feed_run contains
  contains-feed_run run f h =
      ground (
        arith,
        contains-append run.run_id f.notified (run.run_id ∷ []),
        eq_iff run.run_id run.run_id,
      )

  seen-feed :
      (runs : List RunSummary) (f : Feeder)
      → seen (feed prefs project stamps runs f).notified runs ≡ true
  unfolding feed
  seen-feed [] f = refl
  seen-feed (run ∷ runs) f = elim (Bool-cases (is_terminal run.status)) [
    | inl t ↦ ground (
      arith,
      contains-feed run.run_id runs (feed_run prefs project stamps run f),
      contains-feed_run run f,
      seen-feed runs (feed_run prefs project stamps run f),
    )
    | inr t ↦ ground (arith, seen-feed runs (feed_run prefs project stamps run f))
  ]

  store-feed_run_of_no_user :
      (run : RunSummary) (f : Feeder)
      → truthy f.store.active_email ≡ false
      → (feed_run prefs project stamps run f).store ≡ f.store
  unfolding feed_run add
  store-feed_run_of_no_user run f h = elim (Option-cases (draft_for prefs project run)) [
    | inl e ↦ ground arith
    | inr (d, e) ↦
        ground (arith, update_active_of_no_user (added (stamped d (stamps run))) f.store h)
  ]

  pub store-feed_of_no_user :
      (runs : List RunSummary) (f : Feeder)
      → truthy f.store.active_email ≡ false
      → (feed prefs project stamps runs f).store ≡ f.store
  unfolding feed
  store-feed_of_no_user [] f h = refl
  store-feed_of_no_user (run ∷ runs) f h =
      let same = store-feed_run_of_no_user run f h in
      store-feed_of_no_user runs _ (rw same h) ∙ same

-- Feeding a list a second time changes nothing, with whatever preferences.
pub feed-feed :
    (prefs prefs' : AlertPrefs) (project project' : String) (stamps stamps' : RunSummary → Stamp)
    (runs : List RunSummary) (f : Feeder)
    → feed prefs' project' stamps' runs (feed prefs project stamps runs f)
      ≡ feed prefs project stamps runs f
feed-feed prefs prefs' project project' stamps stamps' runs f =
    feed_of_seen prefs' project' stamps' runs _ (seen-feed prefs project stamps runs f)

-- What happens later: another user is active, or the polled list has changed.
pub data Moment : Type 0 where
  active : Option String → Moment
  round : Round → Moment

unfoldable pub moment : Moment → Feeder → Feeder
moment (active email) f = record f { store = set_active_email email f.store }
moment (round r) f = effect r.runs r.project r.stamps f

unfoldable pub moments : List Moment → Feeder → Feeder
unfolding moment
moments [] f = f
moments (m ∷ rest) f = moments rest (moment m f)

-- A later list without a run, and later moments without it
abbrev pub without_run : String → List RunSummary → List RunSummary
without_run id = filter (λ r. not (str_eq r.run_id id))

abbrev pub without_runs : String → Option (List RunSummary) → Option (List RunSummary)
without_runs id none = none
without_runs id (some runs) = some (without_run id runs)

abbrev pub spared : String → Moment → Moment
spared id (active email) = active email
spared id (round r) = round (record r { runs = without_runs id r.runs })

feed-without_run :
    (prefs : AlertPrefs) (project : String) (stamps : RunSummary → Stamp) (id : String)
    (runs : List RunSummary) (f : Feeder)
    → contains id f.notified ≡ true
    → feed prefs project stamps runs f ≡ feed prefs project stamps (without_run id runs) f
unfolding feed
feed-without_run prefs project stamps id [] f h = refl
feed-without_run prefs project stamps id (run ∷ runs) f h =
    elim (Bool-cases (str_eq run.run_id id)) [
      | inl same ↦
          let known : contains run.run_id f.notified ≡ true =
            ap (λ k. contains k f.notified) ((eq_iff run.run_id id).0 same) ∙ h in
          let kept : feed_run prefs project stamps run f ≡ f = unfold feed_run in ground arith in
          rw same (
            ap (feed prefs project stamps runs) kept
            ∙ feed-without_run prefs project stamps id runs f h)
      | inr other ↦ rw other (
          feed-without_run prefs project stamps id runs (feed_run prefs project stamps run f)
            (contains-feed prefs project stamps id (run ∷ []) f h))
    ]

effect-without_runs :
    (id : String) (runs : Option (List RunSummary)) (project : Option String)
    (stamps : RunSummary → Stamp) (f : Feeder)
    → contains id f.notified ≡ true
    → (effect runs project stamps f ≡ effect (without_runs id runs) project stamps f)
      × (contains id (effect runs project stamps f).notified ≡ true)
unfolding effect
effect-without_runs id none project stamps f h = (refl, h)
effect-without_runs id (some runs) none stamps f h = (refl, h)
effect-without_runs id (some runs) (some project) stamps f h =
    elim (Bool-cases (is_filled project)) [
      | inl here ↦
          let prefs = get_alert_prefs project f.store in
          rw here (
            feed-without_run prefs project stamps id runs f h,
            contains-feed prefs project stamps id runs f h,
          )
      | inr blank ↦ rw blank (refl, h)
    ]

moments-spared :
    (id : String) (ms : List Moment) (f : Feeder)
    → contains id f.notified ≡ true
    → moments ms f ≡ moments (map (spared id) ms) f
unfolding moments
moments-spared id [] f h = refl
moments-spared id (active email ∷ ms) f h =
    moments-spared id ms (record f { store = set_active_email email f.store }) h
moments-spared id (round r ∷ ms) f h =
    let (same, known) = effect-without_runs id r.runs r.project r.stamps f h in
    moments-spared id ms (effect r.runs r.project r.stamps f) known
    ∙ ap (moments (map (spared id) ms)) same

-- Whether a list has an ended run of this identifier
abbrev pub has_ended : String → List RunSummary → Bool
has_ended id = any (λ r. str_eq r.run_id id && is_terminal r.status)

contains-has_ended :
    (id : String) (notified : List String) (runs : List RunSummary)
    → seen notified runs ≡ true
    → has_ended id runs ≡ true
    → contains id notified ≡ true
contains-has_ended id notified [] all h = cc
contains-has_ended id notified (r ∷ runs) all h =
    elim (Bool-cases (str_eq r.run_id id && is_terminal r.status)) [
      | inl this ↦
          let same : r.run_id ≡ id = (eq_iff r.run_id id).0 (ground arith) in
          ap (λ k. contains k notified) (sym same) ∙ ground arith
      | inr other ↦ contains-has_ended id notified runs (ground arith) (ground arith)
    ]

-- A list that is fed while nobody is signed in adds no notification; and whoever signs in later, and
-- whatever lists are polled then, all goes on as if a run that had ended in that list were in none of
-- them: it is never notified.
pub feed-signed_in_late :
    (prefs : AlertPrefs) (project : String) (stamps : RunSummary → Stamp) (runs : List RunSummary)
    (f : Feeder) (id : String) (later : List Moment)
    → truthy f.store.active_email ≡ false
    → has_ended id runs ≡ true
    → ((feed prefs project stamps runs f).store ≡ f.store)
      × (moments later (feed prefs project stamps runs f)
          ≡ moments (map (spared id) later) (feed prefs project stamps runs f))
feed-signed_in_late prefs project stamps runs f id later nobody ended =
    let g = feed prefs project stamps runs f in
    (
      store-feed_of_no_user prefs project stamps runs f nobody,
      moments-spared id later g
          (contains-has_ended id g.notified runs (seen-feed prefs project stamps runs f) ended),
    )

-- ===== src/Suites/Schedules/Kept.antt =====
-- Which schedules a save of the run dialog keeps.
use project_hawkeye.Base.{
  String, Bool, All, false, not, List, [], ◌∷◌, ◌++◌, map, filter, some, str_eq, eq_iff, ◌≡◌, refl,
  sym, ap, ◌∙◌, arith, Bool-cases, inl, inr, subst,
}
use project_hawkeye.Base.Strings.{contains}
use project_hawkeye.Base.Strings
use project_hawkeye.Suites.{Schedule}
use project_hawkeye.Suites.Schedules.{
  RunMode, instant, schedule, git_push, is_git_push, is_for, existing_for_mode, Form, Call,
  delete_schedule, saved_call, do_save, handle_confirm, serve, serve_one,
}

abbrev pub schedule_ids : List Schedule → List String
schedule_ids = map (λ (s : Schedule). s.id)

-- What the created schedule is, if any.
abbrev pub created : (String → String → Schedule) → Form → List Schedule
created new f = serve_one new (saved_call f) []

serve-append :
    (new : String → String → Schedule) (cs ds : List Call) (xs : List Schedule)
    → serve new (cs ++ ds) xs ≡ serve new ds (serve new cs xs)
serve-append new [] ds xs = refl
serve-append new (c ∷ cs) ds xs = serve-append new cs ds (serve_one new c xs)

append_nil : (xs : List Schedule) → xs ≡ xs ++ []
append_nil [] = refl
append_nil (x ∷ xs) = ap (x ∷◌) (append_nil xs)

serve_saved_in :
    (new : String → String → Schedule) (mode : RunMode) (model cron branch : String)
    (xs : List Schedule)
    → let f : Form = record { mode = mode; model = model; cron = cron; branch = branch } in
      serve new (saved_call f ∷ []) xs ≡ xs ++ created new f
serve_saved_in new instant model cron branch xs = append_nil xs
serve_saved_in new schedule model cron branch xs = refl
serve_saved_in new git_push model cron branch xs = refl

-- The schedules whose identifiers are not listed.
abbrev unlisted : List String → List Schedule → List Schedule
unlisted ids xs = filter (λ s. not (contains s.id ids)) xs

unlisted_none : (xs : List Schedule) → xs ≡ unlisted [] xs
unfolding contains
unlisted_none [] = refl
unlisted_none (x ∷ xs) = ap (x ∷◌) (unlisted_none xs)

unlisted_more :
    (id : String) (ids : List String) (xs : List Schedule)
    → unlisted ids (filter (λ s. not (str_eq s.id id)) xs) ≡ unlisted (id ∷ ids) xs
unfolding contains
unlisted_more id ids [] = refl
unlisted_more id ids (x ∷ xs) =
    ground (arith, unlisted_more id ids xs, eq_iff x.id id, eq_iff id x.id)

serve-deletes :
    (new : String → String → Schedule) (ds xs : List Schedule)
    → serve new (map (λ (s : Schedule). delete_schedule s.id) ds) xs ≡ unlisted (schedule_ids ds) xs
serve-deletes new [] xs = unlisted_none xs
serve-deletes new (d ∷ ds) xs =
    serve-deletes new ds (filter (λ s. not (str_eq s.id d.id)) xs)
    ∙ unlisted_more d.id (schedule_ids ds) xs

contains-schedule_ids :
    (p : Schedule → Bool) (id : String) (xs : List Schedule)
    → contains id (schedule_ids xs) ≡ false
    → contains id (schedule_ids (filter p xs)) ≡ false
unfolding contains
contains-schedule_ids p id [] h = refl
contains-schedule_ids p id (x ∷ xs) h = ground (arith, contains-schedule_ids p id xs)

-- The listed identifiers are those of the schedules that pass the test.
abbrev Lists : (Schedule → Bool) → List String → List Schedule → Type 0
Lists p ids xs = All (λ s. contains s.id ids ≡ p s) xs

Lists-of_more :
    (p : Schedule → Bool) (id : String) (ids : List String) (xs : List Schedule)
    → contains id (schedule_ids xs) ≡ false
    → Lists p ids xs
    → Lists p (id ∷ ids) xs
unfolding contains
Lists-of_more p id ids [] new h = tt
Lists-of_more p id ids (x ∷ xs) new (e, h) =
    (ground (arith, eq_iff id x.id, eq_iff x.id id), Lists-of_more p id ids xs (ground arith) h)

filter-Lists :
    (p : Schedule → Bool) (xs : List Schedule)
    → Strings.Distinct (schedule_ids xs)
    → Lists p (schedule_ids (filter p xs)) xs
unfolding contains
filter-Lists p [] d = tt
filter-Lists p (x ∷ xs) (new, d) = elim (Bool-cases (p x)) [
  | inl passes ↦
      let keeps : x ∷ filter p xs ≡ filter p (x ∷ xs) = rw passes refl in
      subst (λ ys. Lists p (schedule_ids ys) (x ∷ xs)) keeps
        (
          ground (arith, eq_iff x.id x.id),
          Lists-of_more p x.id (schedule_ids (filter p xs)) xs new (filter-Lists p xs d),
        )
  | inr fails ↦
      let drops : filter p xs ≡ filter p (x ∷ xs) = rw fails refl in
      subst (λ ys. Lists p (schedule_ids ys) (x ∷ xs)) drops
        (contains-schedule_ids p x.id xs new ∙ sym fails, filter-Lists p xs d)
]

unlisted_of_Lists :
    (p : Schedule → Bool) (ids : List String) (xs : List Schedule)
    → Lists p ids xs
    → unlisted ids xs ≡ filter (λ s. not (p s)) xs
unlisted_of_Lists p ids [] h = refl
unlisted_of_Lists p ids (x ∷ xs) (e, h) = ground (arith, unlisted_of_Lists p ids xs h)

-- A save keeps the schedules that are not of the dialog's mode, and appends what the mode creates.
serve-do_save_in_mode :
    (new : String → String → Schedule) (f : Form) (xs : List Schedule)
    → Strings.Distinct (schedule_ids xs)
    → serve new (do_save f xs) xs ≡ filter (λ s. not (is_for f.mode s)) xs ++ created new f
unfolding do_save existing_for_mode
serve-do_save_in_mode new f xs d =
    serve-append new (map (λ (s : Schedule). delete_schedule s.id) (existing_for_mode f.mode xs))
      (saved_call f ∷ []) xs
    ∙ ap (serve new (saved_call f ∷ [])) (
        serve-deletes new (existing_for_mode f.mode xs) xs
        ∙ unlisted_of_Lists (is_for f.mode) (schedule_ids (existing_for_mode f.mode xs)) xs
            (filter-Lists (is_for f.mode) xs d))
    ∙ serve_saved_in new f.mode f.model f.cron f.branch (filter (λ s. not (is_for f.mode s)) xs)

-- The cron text of the schedules that a git push starts, February 31
abbrev pub waits_for_push : Schedule → Bool
waits_for_push s = str_eq s.cron "0 0 31 2 *"

-- "Run now" asks for no confirmation, whatever the schedules are, and with distinct schedule
-- identifiers it leaves no git push trigger to the suite: only the schedules by cron stay.
pub do_save_of_instant :
    (new : String → String → Schedule) (model cron branch : String) (xs : List Schedule)
    → Strings.Distinct (schedule_ids xs)
    → let f : Form = record { mode = instant; model = model; cron = cron; branch = branch } in
      (handle_confirm f xs ≡ some (do_save f xs))
      × (serve new (do_save f xs) xs ≡ filter (λ s. not (is_git_push s)) xs)
unfolding handle_confirm
do_save_of_instant new model cron branch xs d =
    let f : Form = record { mode = instant; model = model; cron = cron; branch = branch } in
    (
      refl,
      serve-do_save_in_mode new f xs d ∙ sym (append_nil (filter (λ s. not (is_git_push s)) xs)),
    )

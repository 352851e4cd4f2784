-- ===== src/Tests/Sessions.antt =====
-- Sessions, tokens, requests, notifications and the stores, for a user "ann@x.io".
use project_hawkeye.Base.{
  ℕ, ◌+◌, ◌≤◌, ◌≢◌, ◌↔◌, String, Bool, true, false, List, [], ◌∷◌, not, ◌&&◌, any, Option, none,
  some, map, or_else, if◌then◌else◌, ◌≡◌, refl, arith, ap, str_eq,
}
use project_hawkeye.Base.Dict
use project_hawkeye.Base.Dict.{Dict}
use project_hawkeye.Base.Strings.{is_filled, truthy, contains, ◌+++◌}
use project_hawkeye.Runs.{failed, RunSummary, is_terminal}
use project_hawkeye.Client.Session.{
  Session, RequestInit, Request, request, Response, responded, receive, spread, auth_headers,
}
use project_hawkeye.Client.Session
use project_hawkeye.Client.Session.Laws.{
  Report, token, reports, carries, json_of, unauthorized, value, request-headers, receive_lem,
  receive-reports,
}
use project_hawkeye.Client.Endpoints.Suites.{update_suite_group}
use project_hawkeye.Client.Endpoints.Calls.{of_suites, send, IsSentFor, send_lem}
use project_hawkeye.Auth.Token.{Token, granted, refused, needs_exchange, jwt}
use project_hawkeye.Auth.Token.Refresh.{
  Backend, refreshes, granting, attempts, refreshes_lem, jwt_of_access_token,
}
use project_hawkeye.Auth.Middleware
use project_hawkeye.Auth.Middleware.{
  middleware, next, is_let_through, middleware-eq-next, is_let_through_of_prefix,
}
use project_hawkeye.Notifications.Store
use project_hawkeye.Notifications.Store.{
  AlertPrefs, Draft, Stamp, NotificationState, Action, set_active, add_draft, default_prefs, act,
  add, remove, stamped, mark_read, use_notifications, unread_count, set_active_email,
}
use project_hawkeye.Notifications.Store.Bounds.{IsBounded, run-IsBounded}
use project_hawkeye.Notifications.Store.Isolation.{lookup-act}
use project_hawkeye.Notifications.Store.Reading.{
  unread_with, unread_count-mark_read, use_notifications-remove-add,
}
use project_hawkeye.Notifications.Feeder.{Feeder, feed}
use project_hawkeye.Notifications.Feeder.Once.{Round, rounds, count_for, count_for-rounds}
use project_hawkeye.Notifications.Feeder.Lost.{
  Moment, active, round, moments, spared, feed-signed_in_late,
}
use project_hawkeye.Projects
use project_hawkeye.Projects.{get_project_for_user, last_for, get_project_for_user-run}
use project_hawkeye.Tests.Data.{run_at, draft_of, stamp_of, signed_in}

abbrev digits : ℕ → String
digits n = "7"

abbrev ready : Session
ready = record { auth_email = some "ann@x.io"; auth_token = some "t"; session_ready = true }

abbrev plain : RequestInit
plain = record { method = none; headers = none; body = none }

request-headers_test :
    (Dict.lookup "Content-Type" (request "http://api" "/api/me" plain ready).headers
      ≡ some "application/json")
    × (Dict.lookup "Authorization" (request "http://api" "/api/me" plain ready).headers ≡ (
        if truthy ready.auth_token then some ("Bearer " +++ or_else ready.auth_token "") else none))
    × (Dict.lookup "X-User-Email" (request "http://api" "/api/me" plain ready).headers ≡ (
        if not (truthy ready.auth_token) && truthy ready.auth_email
        then some (or_else ready.auth_email "")
        else none))
request-headers_test = request-headers "http://api" "/api/me" plain ready refl

abbrev expired : Response String
expired = responded 401 "Unauthorized" ""

receive_lem_test :
    (value (receive digits true "/api/me" ready expired).0 ≡ json_of expired)
    × ((receive digits true "/api/me" ready expired).1
        ≡ unauthorized expired && true && ready.session_ready)
receive_lem_test = receive_lem digits true "/api/me" ready expired

abbrev told : List Report
told = token (some "t") ∷ token none ∷ []

receive-reports_example :
    (receive digits true "/api/me" (reports told Session.initial) expired).1
    ≡ unauthorized expired && true && any carries told
receive-reports_example = receive-reports digits true "/api/me" told expired

abbrev encode : Dict String → String
encode params = ""

abbrev json : String → Option String → String
json name value = or_else value "null"

send_lem_example :
    IsSentFor ready
      (send encode json "http://api" ready (of_suites (update_suite_group "p" "s" none)))
send_lem_example =
    send_lem encode json "http://api" ready (of_suites (update_suite_group "p" "s" none))

abbrev fresh_token : Token
fresh_token = record {
  email = some "ann@x.io";
  name = none;
  access_token = none;
  provider = some "google";
}

abbrev answers : List Backend
answers = (λ email name. refused) ∷ (λ email name. granted (some "t")) ∷ []

refreshes_lem_example :
    ((refreshes answers fresh_token).1 ≡ attempts "ann@x.io" "" answers)
    × (truthy (refreshes answers fresh_token).0.access_token
        ≡ any (λ b. granting (b "ann@x.io" "")) answers)
unfolding needs_exchange
refreshes_lem_example = refreshes_lem answers fresh_token refl refl refl

abbrev held : Token
held = record { email = some "ann@x.io"; name = none; access_token = some "t"; provider = none }

jwt_of_access_token_test :
    (truthy
        (jwt
          (λ email name. refused)
          none
          (some (record { provider = "google" }))
          held).0.access_token
      ≡ true)
    × ((jwt (λ email name. refused) none (some (record { provider = "google" })) held).1 ≡ false)
jwt_of_access_token_test =
    jwt_of_access_token (λ email name. refused) none (some (record { provider = "google" })) held
      refl

abbrev visit : Middleware.Request
visit = record { pathname = "/app"; search = "" }

middleware-eq-next_test :
    (middleware none (some "secret") (λ secret r. true) visit ≡ next)
    ↔ ((is_filled (or_else none (or_else (some "secret") "")) ≡ true) × (true ≡ true))
middleware-eq-next_test = middleware-eq-next none (some "secret") (λ secret r. true) visit

is_let_through_of_prefix_test : is_let_through false ("auth" +++ "orize/keys") ≡ true
unfolding contains
is_let_through_of_prefix_test = is_let_through_of_prefix false "auth" "orize/keys" refl

abbrev d1 : Draft
d1 = draft_of "Run failed: Login"

run-IsBounded_example :
    IsBounded
      (Store.run (set_active (some "ann@x.io") ∷ add_draft d1 (stamp_of "1") ∷ []) Store.initial)
run-IsBounded_example =
    run-IsBounded (set_active (some "ann@x.io") ∷ add_draft d1 (stamp_of "1") ∷ [])

abbrev is_ann : Option String → Bool
is_ann email = str_eq (or_else email "") "ann@x.io"

other_user : signed_in.active_email ≢ some "bob@x.io"
other_user e = let differ : true ≡ false = ap is_ann e in ground arith

lookup-act_example :
    Dict.lookup "bob@x.io" (act (add_draft d1 (stamp_of "1")) signed_in).by_user
    ≡ Dict.lookup "bob@x.io" signed_in.by_user
lookup-act_example = lookup-act (add_draft d1 (stamp_of "1")) signed_in "bob@x.io" other_user

unread_count-mark_read_test :
    unread_count (use_notifications (mark_read "1-abcde" (add d1 (stamp_of "1") signed_in)))
      + unread_with "1-abcde" (use_notifications (add d1 (stamp_of "1") signed_in))
    ≡ unread_count (use_notifications (add d1 (stamp_of "1") signed_in))
unfolding add Store.update_active Store.update_user
unread_count-mark_read_test =
    unread_count-mark_read (add d1 (stamp_of "1") signed_in) refl "1-abcde"

use_notifications-remove-add_test :
    use_notifications (remove (stamped d1 (stamp_of "1")).id (add d1 (stamp_of "1") signed_in))
    ≡ use_notifications signed_in
unfolding use_notifications Store.active_user Dict.lookup
use_notifications-remove-add_test =
    use_notifications-remove-add signed_in d1 (stamp_of "1") refl (omega arith) refl

abbrev nobody : Feeder
nobody = record { notified = []; store = Store.initial }

abbrev ended : List RunSummary
ended = run_at "r1" failed 5 ∷ []

abbrev stamps : RunSummary → Stamp
stamps run = stamp_of "1"

abbrev ann_comes : List Moment
ann_comes =
    active (some "ann@x.io")
    ∷ round (record { runs = some ended; project = some "p"; stamps = stamps })
    ∷ []

feed-signed_in_late_example :
    ((feed default_prefs "p" stamps ended nobody).store ≡ nobody.store)
    × (moments ann_comes (feed default_prefs "p" stamps ended nobody)
        ≡ moments (map (spared "r1") ann_comes) (feed default_prefs "p" stamps ended nobody))
feed-signed_in_late_example =
    feed-signed_in_late default_prefs "p" stamps ended nobody "r1" ann_comes refl
      (unfold is_terminal in refl)

abbrev watching : Feeder
watching = record { notified = []; store = signed_in }

abbrev twice : List Round
twice =
    record { runs = some ended; project = some "p"; stamps = stamps }
    ∷ record { runs = some ended; project = some "q"; stamps = stamps }
    ∷ []

count_for-rounds_example :
    count_for "r1" (use_notifications (rounds twice watching).store)
    ≤ count_for "r1" (use_notifications watching.store) + 1
count_for-rounds_example = count_for-rounds "r1" twice watching

abbrev opened : List Projects.Action
opened =
    Projects.for_user "ann@x.io"
      (some (record { id = "p"; name = "P"; environment = Projects.staging; last_run_ok = none }))
    ∷ Projects.for_user "ann@x.io" none
    ∷ []

get_project_for_user-run_example :
    (get_project_for_user "ann@x.io" (Projects.run opened Projects.initial)
      ≡ last_for "ann@x.io" opened none)
    × Dict.Distinct (Projects.run opened Projects.initial).projects_by_user
get_project_for_user-run_example = get_project_for_user-run opened "ann@x.io"

-- ===== src/Tests/SigningIn.antt =====
-- The pages where users sign in and sign up, and those of their account.
use project_hawkeye.Base.{true, false, List, [], ◌∷◌, none, some, ◌≡◌, ◌↔◌, refl}
use project_hawkeye.Base.Strings.{◌+++◌}
use project_hawkeye.Auth.Forms.{is_plain, is_valid_email}
use project_hawkeye.Account.{
  avatar_fallback, meter_pct, billing_opened, tab_synced, profile_tab, billing,
}
use project_hawkeye.Base.Chars.{is_space, trim, text_length}
use project_hawkeye.Auth.Forms.Emails.{IsAddress, is_valid_email-IsAddress}
use project_hawkeye.Auth.Login.{safe_post_login_redirect}
use project_hawkeye.Auth.Login.Redirect.{
  StaysInApp, safe_post_login_redirect-StaysInApp, after_login, after_login-middleware,
}
use project_hawkeye.Auth.Middleware.{middleware}
use project_hawkeye.Auth.SignUp.{
  Event, name_typed, email_typed, password_typed, confirm_typed, submitted, reply_came, refused,
  accepted, sign_in_ended, run, initial,
}
use project_hawkeye.Auth.SignUp.Once.{IsSound, run-IsSound}

is_valid_email-IsAddress_example : (is_valid_email "a@b.io" ≡ true) ↔ IsAddress "a@b.io"
is_valid_email-IsAddress_example = is_valid_email-IsAddress "a@b.io"

valid_test : is_valid_email "a.c@b.x.io" ≡ true
unfolding is_valid_email is_plain is_space
valid_test = refl

not_valid_test : is_valid_email "a@b@c.io" ≡ false
unfolding is_valid_email is_plain is_space
not_valid_test = refl

safe_post_login_redirect-StaysInApp_example :
    StaysInApp (safe_post_login_redirect some (some "//evil.example"))
safe_post_login_redirect-StaysInApp_example =
    safe_post_login_redirect-StaysInApp some (some "//evil.example")

evil_test : safe_post_login_redirect some (some "//evil.example") ≡ "/app"
unfolding safe_post_login_redirect
evil_test = refl

apple_test : safe_post_login_redirect some (some " /apple ") ≡ "/apple"
unfolding safe_post_login_redirect
apple_test = refl

after_login-middleware_example :
    after_login some (
      middleware
        (some "secret")
        none
        (λ secret request. false)
        (record { pathname = "/app" +++ "/p1/runs/live"; search = "?run=r1" }))
    ≡ some ("/app" +++ "/p1/runs/live" +++ "?run=r1")
unfolding trim
after_login-middleware_example =
    after_login-middleware (some "secret") none (λ secret request. false) some "/p1/runs/live"
      "?run=r1" refl refl refl

abbrev signing_up : List Event
signing_up =
    name_typed "Ada"
    ∷ email_typed "ada@b.io"
    ∷ password_typed "12345678"
    ∷ confirm_typed "12345678"
    ∷ submitted
    ∷ submitted
    ∷ reply_came (refused none)
    ∷ submitted
    ∷ reply_came accepted
    ∷ sign_in_ended false
    ∷ []

run-IsSound_example : IsSound (run signing_up initial)
run-IsSound_example = run-IsSound signing_up initial (refl, refl)

location_test : (run signing_up initial).location ≡ some "/app"
unfolding run text_length is_valid_email is_plain
location_test = refl

avatar_fallback_test : avatar_fallback (λ s. s) "Ada  Lovelace" ≡ "A"
unfolding avatar_fallback
avatar_fallback_test = refl

meter_pct_test :
    meter_pct (record {
      id = "m";
      label = "Runs";
      description = "";
      used = 997;
      limit = 1000;
      unit = "runs";
    })
    ≡ some 100
unfolding meter_pct
meter_pct_test = refl

tab_test : (tab_synced "#profile" (billing_opened none none)).tab ≡ profile_tab
unfolding tab_synced
tab_test = refl

other_tab_test : (tab_synced "#overview" (billing_opened none none)).tab ≡ billing
unfolding tab_synced
other_tab_test = refl

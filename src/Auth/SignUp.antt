-- ===== src/Auth/SignUp.antt =====
-- The sign-up page, src/app/auth/signup/page.tsx of Frontend/hawkeye-web, with what it waits for: the
-- registration at the backend, and then `signIn` of NextAuth, whose results are arguments.
pub mod Once
use project_hawkeye.Base.{
  ℕ, String, Bool, true, false, not, ◌&&◌, List, [], ◌∷◌, ◌++◌, Option, none, some, is_some,
  if◌then◌else◌, or_else, leb, str_eq,
}
use project_hawkeye.Base.Chars.{trim, text_length}
use project_hawkeye.Base.Strings.{is_filled}
use project_hawkeye.Auth.Forms.{email_error, password_error}

-- The body of the registration
pub record Registration : Type 0 where
  pub email : String
  pub password : String
  pub name : String

-- Where an `onSubmit` that has not ended waits, with the values of the render that it belongs to
pub data Wait : Type 0 where
  registering : Registration → Wait
  signing_in : (email password : String) → Wait

-- `waits` are the calls of `onSubmit` that have not ended, and `sent` the registrations sent so far.
pub record Page : Type 0 where
  pub name : String
  pub email : String
  pub password : String
  pub confirm : String
  pub submitting : Bool
  pub register_error : Option String
  pub location : Option String
  pub waits : List Wait
  pub sent : List Registration

abbrev pub initial : Page
initial = record {
  name = "";
  email = "";
  password = "";
  confirm = "";
  submitting = false;
  register_error = none;
  location = none;
  waits = [];
  sent = [];
}

unfoldable pub name_error : String → Option String
unfolding trim
name_error name =
    if not (is_filled name)
    then none
    else if leb 2 (text_length (trim name))
    then none
    else some "Enter your full name."

unfoldable pub confirm_error : (password confirm : String) → Option String
confirm_error password confirm =
    if not (is_filled confirm)
    then none
    else if str_eq confirm password
    then none
    else some "Passwords do not match."

abbrev pub least_password : ℕ
least_password = 8

-- `canSubmit`
unfoldable pub can_submit : Page → Bool
unfolding name_error email_error password_error confirm_error
can_submit p =
    not (is_some (name_error p.name))
    && not (is_some (email_error p.email))
    && not (
        is_some
          (password_error least_password "Password must be at least 8 characters." p.password))
    && not (is_some (confirm_error p.password p.confirm))
    && is_filled p.name
    && is_filled p.email
    && is_filled p.password
    && is_filled p.confirm
    && not p.submitting

-- `onSubmit` up to its first `await`
unfoldable pub on_submit : Page → Page
unfolding can_submit
on_submit p =
    let body : Registration = record { email = p.email; password = p.password; name = p.name } in
    if can_submit p
    then record p {
      register_error = none;
      submitting = true;
      waits = p.waits ++ registering body ∷ [];
      sent = p.sent ++ body ∷ [];
    }
    else p

-- How the request ends: `refused` has `data.detail` of a response that is not ok, `threw` is a request
-- that fails.
pub data Reply : Type 0 where
  accepted : Reply
  refused : Option String → Reply
  threw : Reply

-- The page where the calls `rest` still wait
abbrev pub failed : String → List Wait → Page → Page
failed message rest p = record p { register_error = some message; submitting = false; waits = rest }

-- What follows the request of a call, when the calls behind it are `rest`
unfoldable pub replied : Reply → Registration → List Wait → Page → Page
replied accepted body rest p = record p { waits = signing_in body.email body.password ∷ rest }
replied (refused detail) body rest p =
    failed (or_else detail "Registration failed. Try again.") rest p
replied threw body rest p = failed "Network error. Please try again." rest p

-- What follows `signIn`, whose result is not looked at
unfoldable pub signed_in : (thrown : Bool) → List Wait → Page → Page
signed_in thrown rest p =
    if thrown
    then failed "Network error. Please try again." rest p
    else record p { location = some "/app"; waits = rest }

pub data Event : Type 0 where
  name_typed : String → Event
  email_typed : String → Event
  password_typed : String → Event
  confirm_typed : String → Event
  submitted : Event
  reply_came : Reply → Event
  sign_in_ended : (thrown : Bool) → Event

-- The end of the request or of the sign-in that the first call waits for
unfoldable pub reply_to : Reply → List Wait → Page → Page
unfolding replied
reply_to reply (registering body ∷ rest) p = replied reply body rest p
reply_to reply (signing_in email password ∷ rest) p = p
reply_to reply [] p = p

unfoldable pub end_sign_in : (thrown : Bool) → List Wait → Page → Page
unfolding signed_in
end_sign_in thrown (signing_in email password ∷ rest) p = signed_in thrown rest p
end_sign_in thrown (registering body ∷ rest) p = p
end_sign_in thrown [] p = p

unfoldable pub step : Event → Page → Page
unfolding on_submit reply_to end_sign_in
step (name_typed s) p = record p { name = s }
step (email_typed s) p = record p { email = s }
step (password_typed s) p = record p { password = s }
step (confirm_typed s) p = record p { confirm = s }
step submitted p = on_submit p
step (reply_came reply) p = reply_to reply p.waits p
step (sign_in_ended thrown) p = end_sign_in thrown p.waits p

unfoldable pub run : List Event → Page → Page
unfolding step
run [] p = p
run (e ∷ rest) p = run rest (step e p)

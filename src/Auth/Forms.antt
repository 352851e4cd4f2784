-- ===== src/Auth/Forms.antt =====
-- What the forms of src/app/auth/login, src/app/auth/signup and src/app/auth/password-recovery of
-- Frontend/hawkeye-web ask of an e-mail address: `isValidEmail`, which the three pages declare alike.
pub mod Emails
use Prim.Native.Char.{code}
use Prim.Native.String
use project_hawkeye.Base.{
  ℕ, String, Bool, true, false, not, ◌&&◌, ◌||◌, Option, none, some, if◌then◌else◌, ◌==◌, leb, ltb,
}
use project_hawkeye.Base.Chars.{is_space, text_length}
use project_hawkeye.Base.Strings.{is_filled}

-- `[^\s@]`
unfoldable pub is_plain : ℕ → Bool
is_plain c = not (is_space c) && not (c == b'@')

-- `[^\s@]*$`
unfoldable pub all_plain : String → Bool
all_plain String.[] = true
all_plain (String.◌∷◌ c s) = is_plain (code c) && all_plain s

-- `[^\s@]+` in front of a pattern that begins with more of these characters
unfoldable pub one_plain : (String → Bool) → String → Bool
one_plain p String.[] = false
one_plain p (String.◌∷◌ c s) = is_plain (code c) && p s

-- `[^\s@]*`, a character and a pattern behind it, with all the places where the character may stand
unfoldable pub until : ℕ → (String → Bool) → String → Bool
until d p String.[] = false
until d p (String.◌∷◌ c s) = (code c == d && p s) || (is_plain (code c) && until d p s)

-- `/^[^\s@]+@[^\s@]+\.[^\s@]+$/.test(value)`, `isValidEmail`
unfoldable pub is_valid_email : String → Bool
unfolding one_plain until all_plain
is_valid_email value = one_plain (until b'@' (one_plain (until b'.' (one_plain all_plain)))) value

-- `emailError` of the pages, `null` for an e-mail that is empty or valid
unfoldable pub email_error : String → Option String
email_error email =
    if not (is_filled email)
    then none
    else if is_valid_email email
    then none
    else some "Enter a valid email address."

-- `passwordError`; the least length is 6 at the login and 8 at the sign-up.
unfoldable pub password_error : ℕ → String → String → Option String
password_error least message password =
    if not (is_filled password)
    then none
    else if leb least (text_length password)
    then none
    else some message

-- ===== src/Settings/Formats.antt =====
-- Texts of settings/org/page.tsx and settings/project/page.tsx: the initials of members and the field
-- of the alert threshold.
use project_hawkeye.Base.{
  ℕ, String, Bool, Option, none, some, if◌then◌else◌, or_else, str_eq, ◌&&◌, min,
}
use project_hawkeye.Base.Chars.{trim}
use project_hawkeye.Base.Strings.{slice, is_filled, truthy}

-- `initials` of the organization: the name counts if it is more than white space.
unfoldable pub org_initials :
    (to_upper_case : String → String) (email : String) → Option String → String
unfolding slice trim
org_initials to_upper_case email name =
    to_upper_case (
      slice 2
        (if truthy name && is_filled (trim (or_else name "")) then or_else name "" else email))

-- `initials` of the project, which takes any name
unfoldable pub project_initials :
    (to_upper_case : String → String) (email : String) → Option String → String
unfolding slice
project_initials to_upper_case email name =
    to_upper_case (slice 2 (if truthy name then or_else name "" else email))

-- The value of the threshold field; `number_of` says whether the number is negative, and its size.
unfoldable pub threshold_of : (number_of : String → Bool × ℕ) → String → Option ℕ
threshold_of number_of value =
    if str_eq value ""
    then none
    else some (if (number_of value).0 then 0 else min 100 (number_of value).1)

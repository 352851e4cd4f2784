-- ===== src/Editor/Headers.antt =====
-- The texts of request headers: `parseHeaders` and `formatHeaders` of the test case editor,
-- Frontend/hawkeye-web/src/app/app/(workspace)/[projectId]/test-cases/[id]/page.tsx, and
-- `parseHeaders` of settings/environments/page.tsx there, which is the same.
pub mod RoundTrip
pub mod Vault
use project_hawkeye.Base.{
  ℕ, zero, suc, String, Bool, List, [], ◌∷◌, Option, none, some, map, if◌then◌else◌, ltb,
}
use project_hawkeye.Base.Chars.{trim, split, join, index_of, slice_from}
use project_hawkeye.Base.Dict
use project_hawkeye.Base.Dict.{Dict}
use project_hawkeye.Base.Strings.{slice, ◌+++◌, is_filled, any_suffix}

-- The body of the loop, behind `line.indexOf(":")`
unfoldable pub add_at : Option ℕ → String → Dict String → Dict String
add_at none line out = out
add_at (some index) line out =
    if ltb 0 index
    then Dict.set (trim (slice index line)) (trim (slice_from (suc index) line)) out
    else out

unfoldable pub add_line : String → Dict String → Dict String
unfolding add_at
add_line line out = add_at (index_of b':' line) line out

unfoldable pub add_lines : List String → Dict String → Dict String
add_lines [] out = out
add_lines (line ∷ rest) out = add_lines rest (add_line line out)

-- Its last line gives `out` in both cases of its test.
unfoldable pub parse_headers : String → Dict String
unfolding add_lines add_line
parse_headers raw = add_lines (split b'\n' raw) []

abbrev pub header_line : String × String → String
header_line (k, v) = k +++ (": " +++ v)

abbrev pub header_lines : Dict String → List String
header_lines = map header_line

unfoldable pub format_headers : Option (Dict String) → String
format_headers none = ""
format_headers (some h) = join "\n" (header_lines h)

-- ===== src/Editor/Checks/Stale.antt =====
-- Answers that come late to the check of an address.
use project_hawkeye.Base.{String, true, Option, ◌≡◌, refl}
use project_hawkeye.Editor.Save.{is_valid_url}
use project_hawkeye.Editor.Checks.{UrlCheck, url_typed, check_url, url_checked, ok}

-- The answer to the check of one address is shown beside the address that was typed meanwhile.
pub url_checked_late :
    (protocol_of : String → Option String) (other : String) (c : UrlCheck)
    → is_valid_url protocol_of c.url ≡ true
    → ((url_checked true (url_typed other (check_url protocol_of c))).url ≡ other)
      × ((url_checked true (url_typed other (check_url protocol_of c))).url_status ≡ ok)
unfolding url_checked url_typed check_url
url_checked_late protocol_of other c valid = rw valid (refl, refl)

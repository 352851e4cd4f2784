-- ===== src/Editor/Checks.antt =====
-- The parts of the test case editor beside the form: the check of its address and the runs of its
-- history, `checkUrl` and `loadRuns` of test-cases/[id]/page.tsx.
pub mod Stale
use project_hawkeye.Base.{
  String, Bool, true, false, List, [], ◌∷◌, Option, none, some, if◌then◌else◌,
}
use project_hawkeye.Editor.Save.{is_valid_url}
use project_hawkeye.Runs.{RunSummary}

pub data UrlStatus : Type 0 where
  idle : UrlStatus
  checking : UrlStatus
  ok : UrlStatus
  failed : UrlStatus

-- `asked` are the addresses of the requests that have not ended.
pub record UrlCheck : Type 0 where
  pub url : String
  pub url_status : UrlStatus
  pub asked : List String

-- The handler of the address field
unfoldable pub url_typed : String → UrlCheck → UrlCheck
url_typed url c = record c { url = url; url_status = idle }

-- `checkUrl` up to its `await`, and the rest of the first call that waits
unfoldable pub check_url : (protocol_of : String → Option String) → UrlCheck → UrlCheck
unfolding is_valid_url
check_url protocol_of c =
    if is_valid_url protocol_of c.url
    then record c { url_status = checking; asked = c.url ∷ c.asked }
    else c

unfoldable pub checked_of : (reached : Bool) → List String → UrlCheck → UrlCheck
checked_of reached [] c = c
checked_of reached (url ∷ rest) c = record c {
  url_status = if reached then ok else failed;
  asked = rest;
}

unfoldable pub url_checked : (reached : Bool) → UrlCheck → UrlCheck
unfolding checked_of
url_checked reached c = checked_of reached c.asked c

-- The tab of the history
pub record History : Type 0 where
  pub runs : List RunSummary
  pub runs_loading : Bool
  pub runs_loaded : Bool

-- `loadRuns` up to its `await`, with whether it asks, and the rest
unfoldable pub load_runs : History → History × Bool
load_runs h = if h.runs_loaded then (h, false) else (record h { runs_loading = true }, true)

unfoldable pub runs_came : Option (List RunSummary) → History → History
runs_came none h = record h { runs_loading = false }
runs_came (some runs) h = record h { runs = runs; runs_loaded = true; runs_loading = false }

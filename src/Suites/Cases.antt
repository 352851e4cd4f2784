-- ===== src/Suites/Cases.antt =====
-- The page of all test cases,
-- Frontend/hawkeye-web/src/app/app/(workspace)/[projectId]/test-cases/page.tsx: its state and its
-- handlers, each cut where it waits. Its list stands in Catalog.
pub mod Waiting
use project_hawkeye.Base.{
  String, Bool, true, false, List, [], ◌∷◌, Option, none, some, if◌then◌else◌,
}
use project_hawkeye.Base.Strings.{includes, truthy}
use project_hawkeye.Suites.Catalog.{Reply, answered, threw}
use project_hawkeye.Suites.{TestCaseSummary}

pub record Page : Type 0 where
  pub cases : List TestCaseSummary
  pub loading : Bool
  pub q : String
  pub error : Option String
  pub run_tc_id : Option String
  pub archive_id : Option String
  pub archiving : Bool

abbrev pub initial : Page
initial = record {
  cases = [];
  loading = true;
  q = "";
  error = none;
  run_tc_id = none;
  archive_id = none;
  archiving = false;
}

pub data Call : Type 0 where
  list_all : Call
  clone : (tc : String) → Call
  archive : (tc : String) → Call

-- `load`, up to its request
unfoldable pub load : Page → Page × List Call
load p = (record p { loading = true; error = none }, list_all ∷ [])

unfoldable pub loaded : Reply (List TestCaseSummary) → Page → Page
loaded (answered cases) p = record p { cases = cases; loading = false }
loaded (threw text) p = record p {
  error = some (
      if includes text "403"
      then "You don't have access to this project's test cases."
      else "Failed to load test cases.");
  loading = false;
}

-- `handleClone`: an exception leaves it, and no list is loaded.
unfoldable pub handle_clone : String → Page → Page × List Call
handle_clone tc p = (p, clone tc ∷ [])

unfoldable pub cloned : Reply (Unit {0}) → Page → Page × List Call
unfolding load
cloned (answered done) p = load p
cloned (threw text) p = (p, [])

-- `confirmArchive`
unfoldable pub confirm_archive_of : Option String → Page → Page × List Call
confirm_archive_of none p = (p, [])
confirm_archive_of (some id) p =
    if truthy (some id) then (record p { archiving = true }, archive id ∷ []) else (p, [])

abbrev pub confirm_archive : Page → Page × List Call
confirm_archive p = confirm_archive_of p.archive_id p

-- Its `finally`
abbrev pub settled : Page → Page
settled p = record p { archiving = false; archive_id = none }

unfoldable pub archived : Reply (Unit {0}) → Page → Page × List Call
unfolding load
archived (answered done) p = let (q, calls) = load p in (settled q, calls)
archived (threw text) p = (settled p, [])

pub data Event : Type 0 where
  opened : Event
  list_given : Reply (List TestCaseSummary) → Event
  clone_clicked : (tc : String) → Event
  clone_given : Reply (Unit {0}) → Event
  archive_clicked : (tc : String) → Event
  archive_cancelled : Event
  archive_confirmed : Event
  archive_given : Reply (Unit {0}) → Event
  typed : String → Event

unfoldable pub step : Event → Page → Page × List Call
unfolding load loaded handle_clone cloned confirm_archive_of archived
step opened p = load p
step (list_given reply) p = (loaded reply p, [])
step (clone_clicked tc) p = handle_clone tc p
step (clone_given reply) p = cloned reply p
step (archive_clicked tc) p = (record p { archive_id = some tc }, [])
step archive_cancelled p = (record p { archive_id = none }, [])
step archive_confirmed p = confirm_archive p
step (archive_given reply) p = archived reply p
step (typed v) p = (record p { q = v }, [])

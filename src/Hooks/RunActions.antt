-- ===== src/Hooks/RunActions.antt =====
-- `useCreateRun` and `useDeleteRun` of lib/api/hooks.ts, cut at their `await`.
use project_hawkeye.Base.{String, Bool, true, false, Option, none, some}
use project_hawkeye.Base.Strings.{◌+++◌}

-- The state of `useCreateRun`, and the address that it has gone to.
pub record Creation : Type 0 where
  pub loading : Bool
  pub error : Option String
  pub gone_to : Option String

unfoldable pub create_started : Creation → Creation
create_started s = record s { loading = true; error = none }

unfoldable pub create_answered : (project run_id : String) → Creation → Creation
create_answered project run_id s = record s {
  gone_to = some ("/app/" +++ project +++ "/runs/live?id=" +++ run_id);
}

unfoldable pub create_failed : String → Creation → Creation
create_failed text s = record s { error = some text; loading = false }

-- The result of `deleteRun`: `cancelled` of the answer, or false when there is none.
unfoldable pub delete_run : Option Bool → Bool
delete_run none = false
delete_run (some cancelled) = cancelled

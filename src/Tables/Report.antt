-- ===== src/Tables/Report.antt =====
-- The report of a run,
-- Frontend/hawkeye-web/src/app/app/(workspace)/[projectId]/artifacts/[id]/page.tsx.
pub mod Screenshots
use project_hawkeye.Base.{
  ℕ, ◌+◌, ◌-◌, String, Bool, true, false, not, ◌&&◌, ◌||◌, List, [], ◌∷◌, filter, length, count_by,
  Option, none, some, or_else, if◌then◌else◌, str_eq, ltb, leb, ◌==◌,
}
use project_hawkeye.Base.Chars.{ends_with, text_length}
use project_hawkeye.Base.Strings.{is_filled, truthy, ◌+++◌}
use project_hawkeye.Runs.{RunStatus, failed, errored, RunSummary, AssertionResult}

pub record ArtifactMeta : Type 0 where
  pub name : String
  pub kind : String
  pub url : String
  pub size_bytes : ℕ
  pub step : Option ℕ
  pub assertion_id : Option String

abbrev pub step_of : ArtifactMeta → ℕ
step_of a = or_else a.step 0

abbrev pub is_screenshot : ArtifactMeta → Bool
is_screenshot a = str_eq a.kind "screenshot"

-- `sort((a, b) => (a.step ?? 0) - (b.step ?? 0))`, which is stable
unfoldable pub insert_step : ArtifactMeta → List ArtifactMeta → List ArtifactMeta
insert_step a [] = a ∷ []
insert_step a (x ∷ xs) =
    let rest = insert_step a xs in if leb (step_of a) (step_of x) then a ∷ x ∷ xs else x ∷ rest

unfoldable pub sort_steps : List ArtifactMeta → List ArtifactMeta
unfolding insert_step
sort_steps [] = []
sort_steps (a ∷ rest) = insert_step a (sort_steps rest)

unfoldable pub screenshots : List ArtifactMeta → List ArtifactMeta
unfolding sort_steps
screenshots manifest = sort_steps (filter is_screenshot manifest)

abbrev pub is_video : ArtifactMeta → Bool
is_video a = ends_with a.name ".mp4" || str_eq a.kind "video"

unfoldable pub video_artifact : List ArtifactMeta → Option ArtifactMeta
unfolding ends_with
video_artifact [] = none
video_artifact (a ∷ rest) = if is_video a then some a else video_artifact rest

abbrev pub assertions : RunSummary → List AssertionResult
assertions run = or_else run.assertion_results []

unfoldable pub passed_count : RunSummary → ℕ
passed_count run = count_by (λ (a : AssertionResult). a.passed) (assertions run)

unfoldable pub total_tokens : RunSummary → ℕ
total_tokens run = or_else run.total_input_tokens 0 + or_else run.total_output_tokens 0

-- The card of the assertions: the two numbers, and how many failed
pub data Verdict : Type 0 where
  none_defined : Verdict
  all_passed : (total : ℕ) → Verdict
  some_failed : (passed total failures : ℕ) → Verdict

unfoldable pub verdict : RunSummary → Verdict
unfolding passed_count
verdict run =
    let total = length (assertions run) in
    if ltb 0 total
    then (if passed_count run == total
        then all_passed total
        else some_failed (passed_count run) total (total - passed_count run))
    else none_defined

-- `isFail` of the recording
unfoldable pub is_fail : RunStatus → Bool
is_fail failed = true
is_fail errored = true
is_fail _ = false

-- The fields of a `StepTrace` that `StepTraceItem` computes with
pub record StepTrace : Type 0 where
  pub step_number : ℕ
  pub llm_latency_ms : ℕ
  pub tool_execution_latency_ms : ℕ
  pub total_step_latency_ms : Option ℕ
  pub tool_success : Bool
  pub tool_error : Option String
  pub checkpoint_id : Option String
  pub checkpoint_completed : Bool
  pub agent_output_text : Option String
  pub screenshot_b64 : Option String

pub record StepItem : Type 0 where
  pub is_error : Bool
  pub img_src : Option String
  pub checkpoint : Option String
  pub latency_ms : ℕ
  pub can_expand : Bool

unfoldable pub step_item : StepTrace → StepItem
unfolding text_length
step_item trace = record {
  is_error = not trace.tool_success && truthy trace.tool_error;
  img_src =
      if truthy trace.screenshot_b64
      then some ("data:image/png;base64," +++ or_else trace.screenshot_b64 "")
      else none;
  checkpoint =
      if trace.checkpoint_completed && truthy trace.checkpoint_id
      then trace.checkpoint_id
      else none;
  latency_ms =
      or_else trace.total_step_latency_ms (trace.llm_latency_ms + trace.tool_execution_latency_ms);
  can_expand = ltb 200 (text_length (or_else trace.agent_output_text ""));
}

-- ===== src/System/Scenario.antt =====
-- A workflow from the new task to its implementation run, as test data.
use issue_pilot.Prelude.{none, some, List, [], ◌∷◌, Bool, true, false}
use issue_pilot.Status.{TaskStatus, Action}
use issue_pilot.Schemas.{
  PlanningDecisionCreate, PlanningEvidenceBundle, RequirementAnalysisDraft, ImplementationPlanDraft,
  PatchArtifactDraft, TestExecutionResult, pos,
}
use issue_pilot.System.{
  Request, create_task, set_status, scan, persist_planning, create_decision,
  apply_terminal_decision, create_run, set_generating, persist_patch, create_test, mark_testing,
  persist_test_result,
}

abbrev pub bundle : PlanningEvidenceBundle
bundle = record {
  task_id = 1;
  issue = "Reset the counter";
  commit_sha = 7;
  retrieval_run_id = 3;
  evidence_sha256 = 8;
  evidence_truncated = false;
  evidence = [];
}

abbrev pub analysis : RequirementAnalysisDraft
analysis = record {
  summary = "The counter keeps its value";
  acceptance_criteria = [];
  constraints = [];
  assumptions = [];
  affected_areas = [];
  risks = [];
}

abbrev pub plan_draft : ImplementationPlanDraft
plan_draft = record { steps = []; test_strategy = []; risk_notes = [] }

abbrev pub approval : PlanningDecisionCreate
approval = record {
  action = Action.approve;
  expected_plan_version = 1;
  idempotency_key = 5;
  comment = none;
}

-- Up to the plan that waits for approval.
abbrev pub planning : List (Bool × Request)
planning =
    (false, create_task 1 "https://github.com/acme/shop" "Reset the counter")
    ∷ (false, set_status 1 TaskStatus.analyzing none none)
    ∷ (
      false,
      scan (record { task_id = 1; commit_sha = 7; tree_manifest = [] } ∷ [])
          (record { task_id = 1; commit_sha = 7 } ∷ [])
          (record { id = 3; task_id = 1; commit_sha = 7 } ∷ []),
    )
    ∷ (false, persist_planning 10 11 bundle analysis plan_draft "openai" "gpt" "planning-graph-v1")
    ∷ []

-- The approval, first lost to a database fault, and the run.
abbrev pub implementing : List (Bool × Request)
implementing =
    (true, create_decision 20 1 approval)
    ∷ (false, create_decision 21 1 approval)
    ∷ (false, apply_terminal_decision 99 21 Action.approve)
    ∷ (
      false,
      create_run 30 1 (record { expected_plan_version = 1; idempotency_key = 6 }) "openai" "gpt",
    )
    ∷ []

abbrev pub patch : PatchArtifactDraft
patch = record {
  unified_diff = "diff";
  diff_sha256 = 77;
  file_manifest = [];
  file_count = 1;
  insertions = 1;
  deletions = 1;
}

abbrev pub passing : TestExecutionResult
passing = record {
  command_argv = "python" ∷ [];
  runner_image = "runner:1";
  exit_code = some (pos 0);
  timed_out = false;
  duration_ms = 900;
  stdout = "1 passed";
  stderr = "";
  output_sha256 = 88;
  output_truncated = false;
}

-- The patch and its test.
abbrev pub testing : List (Bool × Request)
testing =
    (false, set_generating 30 "implementations/30")
    ∷ (false, persist_patch 30 patch)
    ∷ (
      false,
      create_test 40 1 (record { expected_patch_sha256 = 77; idempotency_key = 9 }) "runner:1",
    )
    ∷ (false, mark_testing 40)
    ∷ (false, persist_test_result 99 40 passing)
    ∷ []

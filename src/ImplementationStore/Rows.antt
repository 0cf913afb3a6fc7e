-- ===== src/ImplementationStore/Rows.antt =====
-- The rows that SqlImplementationStore writes: the helpers below the class in
-- backend/app/services/implementation_store.py, and the assignments to columns of loaded rows.
use issue_pilot.Prelude.{ℕ, String, Option, none, some, Bool, false, not, ◌&&◌, ◌==◌, if◌then◌else◌}
use issue_pilot.Prelude.Table.{find, get}
use issue_pilot.Status.{RunStatus, TestStatus}
use issue_pilot.Schemas.{
  ImplementationCreate, TestRunCreate, PatchArtifactDraft, TestExecutionResult, is_zero,
  test_command,
}
use issue_pilot.Db.{
  Db, PlanningRun, ImplementationPlan, ImplementationRun, PatchArtifact, TestRun, implementation,
  patch_key,
}

pub record ImplementationResponse : Type 0 where
  pub run : ImplementationRun
  pub patch : Option PatchArtifact
  pub test : Option TestRun

abbrev pub test_of_run : ℕ → TestRun → Bool
test_of_run run x = x.implementation_run_id == run

unfoldable pub response : ImplementationRun → Db → ImplementationResponse
response run db = record {
  run = run;
  patch = get patch_key run.id db.patches;
  test = find (test_of_run run.id) db.tests;
}

unfoldable pub new_implementation_run :
    ℕ
    → ℕ
    → ImplementationCreate
    → PlanningRun
    → ImplementationPlan
    → String
    → String
    → ImplementationRun
new_implementation_run run_id t payload planning_run plan provider model = record {
  id = run_id;
  task_id = t;
  planning_run_id = planning_run.id;
  plan_id = plan.id;
  plan_version = plan.version;
  idempotency_key = payload.idempotency_key;
  base_commit = planning_run.commit_sha;
  graph_version = "implementation-graph-v1";
  prompt_version = "file-replacement-v1";
  llm_provider = provider;
  llm_model = model;
  checkpoint_thread_id = implementation run_id;
  worktree_relpath = none;
  status = RunStatus.pending;
  failure_code = none;
  failure_message = none;
}

unfoldable pub new_test_run : ℕ → ℕ → TestRunCreate → PatchArtifact → String → TestRun
new_test_run test_id run_id payload patch runner_image = record {
  id = test_id;
  implementation_run_id = run_id;
  idempotency_key = payload.idempotency_key;
  expected_patch_sha256 = patch.diff_sha256;
  status = TestStatus.pending;
  command_argv = test_command;
  runner_image = runner_image;
  exit_code = none;
  timed_out = false;
  duration_ms = none;
  stdout = none;
  stderr = none;
  output_sha256 = none;
  output_truncated = false;
  finished_at = none;
}

abbrev pub generating_row : String → ImplementationRun → ImplementationRun
generating_row relpath r = record r {
  status = RunStatus.generating_patch;
  worktree_relpath = some relpath;
}

abbrev pub run_status_row : RunStatus → ImplementationRun → ImplementationRun
run_status_row s r = record r { status = s }

unfoldable pub patch_artifact : ℕ → PatchArtifactDraft → PatchArtifact
patch_artifact run_id draft = record {
  implementation_run_id = run_id;
  unified_diff = draft.unified_diff;
  diff_sha256 = draft.diff_sha256;
  file_manifest = draft.file_manifest;
  file_count = draft.file_count;
  insertions = draft.insertions;
  deletions = draft.deletions;
}

abbrev pub running_row : TestRun → TestRun
running_row x = record x { status = TestStatus.running }

-- `result.exit_code == 0 and not result.timed_out`
unfoldable pub test_passed : TestExecutionResult → Bool
test_passed result = elim result.exit_code [
  | none ↦ false
  | some code ↦ is_zero code && not result.timed_out
]

abbrev pub finished_row : ℕ → TestExecutionResult → TestRun → TestRun
finished_row now result x = record x {
  status = if test_passed result then TestStatus.passed else TestStatus.failed;
  runner_image = result.runner_image;
  exit_code = result.exit_code;
  timed_out = result.timed_out;
  duration_ms = some result.duration_ms;
  stdout = some result.stdout;
  stderr = some result.stderr;
  output_sha256 = some result.output_sha256;
  output_truncated = result.output_truncated;
  finished_at = some now;
}

abbrev pub fail_row : Bool → String → String → ImplementationRun → ImplementationRun
fail_row blocked code message r = record r {
  status = if blocked then RunStatus.recovery_blocked else RunStatus.failed;
  failure_code = some code;
  failure_message = some message;
}

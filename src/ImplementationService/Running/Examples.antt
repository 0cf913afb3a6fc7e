-- ===== src/ImplementationService/Running/Examples.antt =====
-- The theorems on `run_test` for a stored patch of one file whose test times out.
use issue_pilot.Prelude.{◌≡◌, ◌⊎◌, refl, ap, String, none, some, [], ◌∷◌, true, false}
use issue_pilot.Prelude.Table.{find, filter, modify}
use issue_pilot.Status.{
  TaskStatus, PlanStatus, RunStatus, TestStatus, plan_is_approved, test_is_pending, test_is_running,
  test_is_finished, run_is_test_pending,
}
use issue_pilot.Schemas.{PlanStep, TestStrategyItem, test_command, is_zero}
use issue_pilot.Db.{
  Db, Task, PlanningRun, ImplementationPlan, ImplementationRun, PatchArtifact, TestRun, empty,
  implementation,
}
use issue_pilot.Transaction.{transaction}
use issue_pilot.ImplementationStore.{
  load_context, load_test_context, mark_testing, persist_test_result, lock_test_run_task,
  lock_run_and_task, test_passed,
}
use issue_pilot.Chunker.Ordering.{sorted, sorted_onto, insert_sorted}
use issue_pilot.PatchService.{
  parts_eq, replaced, read_regular_file, read_node, is_unsafe, get_original, inspect, manifest,
  manifest_entry,
}
use issue_pilot.PatchService.Examples as Patches
use issue_pilot.TestRunner.{
  run_image, handle_outcome, execute, resolve_image, execution_result, limited_text,
  direct_output_hash, remove_container, container_name, inspect_container, confirm_removed,
  after_removal, after_inspection, run_command, outcome_of, ask, require_local_docker_host, collect,
  read_bounded, read_bounded_loop,
}
use issue_pilot.TestRunner
use issue_pilot.TestRunner.Examples as Runs
use issue_pilot.ImplementationService.Failures.{Service, done}
use issue_pilot.ImplementationService.Scope.{
  to_set, step_paths, test_paths, manifest_paths, is_safe_python_path, planned_paths, allowed_paths,
}
use issue_pilot.ImplementationService.Source.{
  Host, verify_source, verify_workspace, one_commit, is_current, resolve_for, context_paths,
}
use issue_pilot.ImplementationService.Running.{
  World, from_patch, from_runner, check_test, execute_test, run_checked, run_test,
}
use issue_pilot.ImplementationService.Running.Tested.{
  Checked, Tested, run_test_guarded, run_test-Tested,
}

abbrev pub host : Host
host = record {
  provider_name = "ollama";
  provider_model = "qwen";
  repository_path = λ _. done "/r";
  is_dir = λ _. true;
  head_sha = λ _. done 7;
  is_clean = λ _. done true;
  resolve_relative = λ _. some "/w";
  run_path = λ _ _. "/w";
  pure_path = λ path. record { is_absolute = false; parts = path ∷ []; suffix = ".py" };
}

abbrev pub step : PlanStep
step = record {
  order = 1;
  title = "Reset";
  description = "Reset the counter";
  paths = "a.py" ∷ [];
  symbols = [];
  evidence_ranks = 1 ∷ [];
}

abbrev pub strategy : TestStrategyItem
strategy = record { description = "Count"; target_paths = "a.py" ∷ []; evidence_ranks = 1 ∷ [] }

abbrev plan : ImplementationPlan
plan = record {
  id = 3;
  run_id = 2;
  version = 1;
  status = PlanStatus.approved;
  supersedes_plan_id = none;
  revision_feedback = none;
  draft = record { steps = step ∷ []; test_strategy = strategy ∷ []; risk_notes = [] };
  decided_at = none;
}

abbrev planning_run : PlanningRun
planning_run = record {
  id = 2;
  task_id = 1;
  retrieval_run_id = 4;
  commit_sha = 7;
  graph_version = "g";
  llm_provider = "ollama";
  llm_model = "qwen";
  analysis_prompt_version = "a";
  plan_prompt_version = "p";
  evidence_sha256 = 9;
  evidence_count = 1;
  evidence_truncated = false;
}

abbrev pub run : ImplementationRun
run = record {
  id = 5;
  task_id = 1;
  planning_run_id = 2;
  plan_id = 3;
  plan_version = 1;
  idempotency_key = 50;
  base_commit = 7;
  graph_version = "implementation-graph-v1";
  prompt_version = "file-replacement-v1";
  llm_provider = "ollama";
  llm_model = "qwen";
  checkpoint_thread_id = implementation 5;
  worktree_relpath = some "tasks/1";
  status = RunStatus.test_pending;
  failure_code = none;
  failure_message = none;
}

abbrev pub patch : PatchArtifact
patch = record {
  implementation_run_id = 5;
  unified_diff = "new";
  diff_sha256 = 1;
  file_manifest = [];
  file_count = 1;
  insertions = 1;
  deletions = 0;
}

abbrev pub test : TestRun
test = record {
  id = 6;
  implementation_run_id = 5;
  idempotency_key = 60;
  expected_patch_sha256 = 1;
  status = TestStatus.pending;
  command_argv = test_command;
  runner_image = "tests";
  exit_code = none;
  timed_out = false;
  duration_ms = none;
  stdout = none;
  stderr = none;
  output_sha256 = none;
  output_truncated = false;
  finished_at = none;
}

abbrev pub task : Task
task = record {
  id = 1;
  repository_url = "https://github.com/acme/shop";
  issue_text = "Reset the counter";
  status = TaskStatus.test_pending;
  failure_code = none;
  failure_message = none;
}

abbrev pub db : Db
db = record empty {
  tasks = task ∷ [];
  snapshots =
      record {
        task_id = 1;
        commit_sha = 7;
        tree_manifest = record { path = "a.py"; kind = "file" } ∷ [];
      }
      ∷ [];
  code_indexes = record { task_id = 1; commit_sha = 7 } ∷ [];
  retrieval_runs = record { id = 4; task_id = 1; commit_sha = 7 } ∷ [];
  planning_runs = planning_run ∷ [];
  plans = plan ∷ [];
  implementation_runs = run ∷ [];
  patches = patch ∷ [];
  tests = test ∷ [];
}

abbrev world : World
world = record { db = db; worktree = Patches.written; history = [] }

abbrev outcome : Service (Unit {0}) × World
outcome =
    run_test host Patches.platform Patches.limits Runs.platform Runs.runner false false 100 60000 6
      world

returns : outcome.0 ≡ done tt
unfolding run_test run_checked execute_test check_test from_patch from_runner load_context
    load_test_context verify_source verify_workspace one_commit is_current resolve_for context_paths
    allowed_paths planned_paths to_set step_paths test_paths manifest_paths is_safe_python_path find
    filter modify plan_is_approved test_is_pending test_is_running test_is_finished
    run_is_test_pending transaction mark_testing persist_test_result lock_test_run_task
    lock_run_and_task test_passed is_zero inspect manifest manifest_entry read_regular_file
    read_node is_unsafe get_original parts_eq replaced sorted sorted_onto insert_sorted
    TestRunner.run run_image handle_outcome execute resolve_image execution_result limited_text
    direct_output_hash remove_container container_name inspect_container confirm_removed
    after_removal after_inspection run_command outcome_of ask require_local_docker_host collect
    read_bounded read_bounded_loop
returns = refl

run_test_guarded_example :
    (outcome.1 ≡ world)
    ⊎ ((directory : String) × Checked host Patches.platform Patches.limits 6 db Patches.written
          directory)
run_test_guarded_example =
    run_test_guarded host Patches.platform Patches.limits Runs.platform Runs.runner false false 100
      60000 6 world

run_test-Tested_example :
    (directory : String) × Checked host Patches.platform Patches.limits 6 db Patches.written
      directory
    × Tested host Patches.platform Patches.limits Runs.platform Runs.runner 100 60000 6 world
        directory outcome.1
run_test-Tested_example =
    run_test-Tested host Patches.platform Patches.limits Runs.platform Runs.runner false false 100
      60000 6 world outcome.1 (ap (λ r. (r, outcome.1)) returns)

-- ===== src/ImplementationStore/Examples.antt =====
-- The theorems of SqlImplementationStore on an approved plan and on a running test.
use issue_pilot.Prelude.{ℕ, ◌≡◌, refl, none, some, [], ◌∷◌, false}
use issue_pilot.Prelude.Table.{find, modify}
use issue_pilot.Status.{
  TaskStatus, PlanStatus, RunStatus, TestStatus, is_approved, plan_is_approved,
}
use issue_pilot.Schemas.{test_command, ImplementationCreate, TestExecutionResult, pos}
use issue_pilot.Result.{ok}
use issue_pilot.Db.{
  Db, Task, PlanningRun, ImplementationPlan, ImplementationRun, TestRun, empty, implementation,
  insert_implementation_run,
}
use issue_pilot.ImplementationStore.{
  ImplementationResponse, create_run, start_run, approved_plan, new_implementation_run, response,
}
use issue_pilot.ImplementationStore.Idempotence.{create_run_replay}

abbrev task_in : TaskStatus → Task
task_in status = record {
  id = 1;
  repository_url = "https://github.com/acme/shop";
  issue_text = "Reset the counter";
  status = status;
  failure_code = none;
  failure_message = none;
}

abbrev run_in : RunStatus → ImplementationRun
run_in status = record {
  id = 30;
  task_id = 1;
  planning_run_id = 10;
  plan_id = 11;
  plan_version = 1;
  idempotency_key = 6;
  base_commit = 7;
  graph_version = "implementation-graph-v1";
  prompt_version = "file-replacement-v1";
  llm_provider = "openai";
  llm_model = "gpt";
  checkpoint_thread_id = implementation 30;
  worktree_relpath = none;
  status = status;
  failure_code = none;
  failure_message = none;
}

abbrev running_test : TestRun
running_test = record {
  id = 40;
  implementation_run_id = 30;
  idempotency_key = 9;
  expected_patch_sha256 = 77;
  status = TestStatus.running;
  command_argv = test_command;
  runner_image = "runner:1";
  exit_code = none;
  timed_out = false;
  duration_ms = none;
  stdout = none;
  stderr = none;
  output_sha256 = none;
  output_truncated = false;
  finished_at = none;
}

abbrev result : ℕ → TestExecutionResult
result code = record {
  command_argv = test_command;
  runner_image = "runner:1";
  exit_code = some (pos code);
  timed_out = false;
  duration_ms = 900;
  stdout = "1 passed";
  stderr = "";
  output_sha256 = 88;
  output_truncated = false;
}

abbrev testing_db : Db
testing_db = record empty {
  tasks = task_in TaskStatus.testing ∷ [];
  implementation_runs = run_in RunStatus.testing ∷ [];
  tests = running_test ∷ [];
}

abbrev planned_run : PlanningRun
planned_run = record {
  id = 10;
  task_id = 1;
  retrieval_run_id = 3;
  commit_sha = 7;
  graph_version = "planning-graph-v1";
  llm_provider = "openai";
  llm_model = "gpt";
  analysis_prompt_version = "analysis-v1";
  plan_prompt_version = "plan-v1";
  evidence_sha256 = 8;
  evidence_count = 0;
  evidence_truncated = false;
}

abbrev approved_plan_row : ImplementationPlan
approved_plan_row = record {
  id = 11;
  run_id = 10;
  version = 1;
  status = PlanStatus.approved;
  supersedes_plan_id = none;
  revision_feedback = none;
  draft = record { steps = []; test_strategy = []; risk_notes = [] };
  decided_at = some 98;
}

abbrev approved_db : Db
approved_db = record empty {
  tasks = task_in TaskStatus.approved ∷ [];
  planning_runs = planned_run ∷ [];
  plans = approved_plan_row ∷ [];
}

abbrev started_db : Db
started_db = record approved_db {
  tasks = task_in TaskStatus.implementation_pending ∷ [];
  implementation_runs = run_in RunStatus.pending ∷ [];
}

abbrev request : ImplementationCreate
request = record { expected_plan_version = 1; idempotency_key = 6 }

abbrev answer : ImplementationResponse
answer = record { run = run_in RunStatus.pending; patch = none; test = none }

started : create_run 30 1 request "openai" "gpt" approved_db ≡ ok (answer, started_db)
unfolding create_run start_run find modify approved_plan is_approved plan_is_approved
    new_implementation_run response insert_implementation_run
started = refl

create_run_replay_example :
    create_run 31 1 request "ollama" "qwen" started_db ≡ ok (answer, started_db)
create_run_replay_example =
    create_run_replay 30 31 1 request "openai" "gpt" "ollama" "qwen" approved_db answer started_db
      started

-- ===== src/System/Verified/Examples.antt =====
-- The theorems on runs, patches and tests at the end of the scenario.
use issue_pilot.Prelude.{none, some, List, ◌++◌, Bool, true, false, ◌≡◌, refl}
use issue_pilot.Prelude.Table.{get, find, count, modify}
use issue_pilot.Transaction.{transaction}
use issue_pilot.Status.{
  RunStatus, TestStatus, is_analyzing, is_waiting_approval, is_approved, is_patch_ready, action_eq,
  plan_is_proposed, plan_is_approved, decision_is_pending, decision_is_applied, run_can_generate,
  run_is_generating, run_is_patch_ready, run_is_test_pending, test_is_pending, test_is_running,
  test_is_finished,
}
use issue_pilot.Db.{
  ImplementationRun, TestRun, empty, run_key, implementation, insert_planning_run, insert_analysis,
  insert_plan, plan_clash, insert_decision, insert_implementation_run, insert_patch, insert_test,
}
use issue_pilot.Schemas.{test_command, pos, is_zero}
use issue_pilot.TaskService.{create_task, new_task, set_task_status, get_task}
use issue_pilot.PlanningStore.{
  persist_planning, create_decision, submit_decision, apply_terminal_decision, decision_by_key,
  lock_current_plan, lock_decision, require_submittable, require_pending_action,
  require_current_context, planning_run, plan_record, new_decision, plan_verdict, task_verdict,
}
use issue_pilot.ImplementationStore.{
  create_run, start_run, approved_plan, new_implementation_run, set_generating, persist_patch,
  store_patch, patch_artifact, create_test, start_test, new_test_run, mark_testing,
  persist_test_result, test_passed, lock_run_and_task, lock_test_run_task,
}
use issue_pilot.System.{Request, step, run}
use issue_pilot.System.Scenario.{planning, implementing, testing}
use issue_pilot.System.Verified.Reach.{has_clean_test, tested_has_clean_test}

abbrev requests : List (Bool × Request)
requests = planning ++ implementing ++ testing

abbrev tested_run : ImplementationRun
tested_run = record {
  id = 30;
  task_id = 1;
  planning_run_id = 10;
  plan_id = 11;
  plan_version = 1;
  idempotency_key = 6;
  base_commit = 7;
  graph_version = "implementation-graph-v1";
  prompt_version = "file-replacement-v1";
  llm_provider = "openai";
  llm_model = "gpt";
  checkpoint_thread_id = implementation 30;
  worktree_relpath = some "implementations/30";
  status = RunStatus.tested;
  failure_code = none;
  failure_message = none;
}

abbrev passed_test : TestRun
passed_test = record {
  id = 40;
  implementation_run_id = 30;
  idempotency_key = 9;
  expected_patch_sha256 = 77;
  status = TestStatus.passed;
  command_argv = test_command;
  runner_image = "runner:1";
  exit_code = some (pos 0);
  timed_out = false;
  duration_ms = some 900;
  stdout = some "1 passed";
  stderr = some "";
  output_sha256 = some 88;
  output_truncated = false;
  finished_at = some 99;
}

stored_run : get run_key 30 (run requests empty).implementation_runs ≡ some tested_run
unfolding run step find count modify transaction is_analyzing is_waiting_approval is_approved
    is_patch_ready action_eq plan_is_proposed plan_is_approved decision_is_pending
    decision_is_applied run_can_generate run_is_generating run_is_patch_ready run_is_test_pending
    test_is_pending test_is_running test_is_finished insert_planning_run insert_analysis insert_plan
    plan_clash insert_decision insert_implementation_run insert_patch insert_test is_zero
    create_task new_task set_task_status get_task persist_planning create_decision submit_decision
    apply_terminal_decision decision_by_key lock_current_plan lock_decision require_submittable
    require_pending_action require_current_context planning_run plan_record new_decision
    plan_verdict task_verdict create_run start_run approved_plan new_implementation_run
    set_generating persist_patch store_patch patch_artifact create_test start_test new_test_run
    mark_testing persist_test_result test_passed lock_run_and_task lock_test_run_task
stored_run = refl

tested_has_clean_test_example : has_clean_test 30 (run requests empty).tests ≡ true
tested_has_clean_test_example = tested_has_clean_test requests 30 tested_run stored_run refl

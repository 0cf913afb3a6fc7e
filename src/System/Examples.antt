-- ===== src/System/Examples.antt =====
-- The theorems of the workflow at the scenario's requests.
use issue_pilot.Prelude.{none, some, ◌++◌, ◌≡◌, ◌≤◌, refl}
use issue_pilot.Prelude.Table.{find, count, get, modify}
use issue_pilot.Transaction.{transaction}
use issue_pilot.Status.{
  TaskStatus, RunStatus, is_analyzing, is_waiting_approval, is_approved, action_eq,
  plan_is_proposed, plan_is_approved, decision_is_pending, decision_is_applied,
}
use issue_pilot.Db.{
  Task, ImplementationRun, empty, task_key, run_key, implementation, insert_planning_run,
  insert_analysis, insert_plan, plan_clash, insert_decision, insert_implementation_run,
}
use issue_pilot.TaskService.{create_task, new_task, set_task_status, get_task}
use issue_pilot.PlanningStore.{
  persist_planning, create_decision, submit_decision, apply_terminal_decision, decision_by_key,
  lock_current_plan, lock_decision, require_submittable, require_pending_action,
  require_current_context, planning_run, plan_record, new_decision, plan_verdict, task_verdict,
}
use issue_pilot.ImplementationStore.{create_run, start_run, approved_plan, new_implementation_run}
use issue_pilot.System.{step, run}
use issue_pilot.System.Invariant.{pending_on, approval_of, is_authorised}
use issue_pilot.System.Scenario.{planning, implementing}
use issue_pilot.System.Reach.{authorised_was_approved, one_pending_decision, run_was_approved}

abbrev planned_task : Task
planned_task = record {
  id = 1;
  repository_url = "https://github.com/acme/shop";
  issue_text = "Reset the counter";
  status = TaskStatus.waiting_approval;
  failure_code = none;
  failure_message = none;
}

abbrev started_task : Task
started_task = record planned_task { status = TaskStatus.implementation_pending }

started : get task_key 1 (run (planning ++ implementing) empty).tasks ≡ some started_task
unfolding run step find count modify transaction is_analyzing is_waiting_approval is_approved
    action_eq plan_is_proposed plan_is_approved decision_is_pending decision_is_applied
    insert_planning_run insert_analysis insert_plan plan_clash insert_decision
    insert_implementation_run create_task new_task set_task_status get_task persist_planning
    create_decision submit_decision apply_terminal_decision decision_by_key lock_current_plan
    lock_decision require_submittable require_pending_action require_current_context planning_run
    plan_record new_decision plan_verdict task_verdict create_run start_run approved_plan
    new_implementation_run
started = refl

authorised_was_approved_example :
    1 ≤ count (approval_of 1) (run (planning ++ implementing) empty).decisions
unfolding is_authorised
authorised_was_approved_example =
    authorised_was_approved (planning ++ implementing) refl 1 started_task started refl

waiting : get task_key 1 (run planning empty).tasks ≡ some planned_task
unfolding run step find count modify transaction is_analyzing is_waiting_approval is_approved
    action_eq plan_is_proposed plan_is_approved decision_is_pending decision_is_applied
    insert_planning_run insert_analysis insert_plan plan_clash insert_decision
    insert_implementation_run create_task new_task set_task_status get_task persist_planning
    create_decision submit_decision apply_terminal_decision decision_by_key lock_current_plan
    lock_decision require_submittable require_pending_action require_current_context planning_run
    plan_record new_decision plan_verdict task_verdict create_run start_run approved_plan
    new_implementation_run
waiting = refl

one_pending_decision_example : count (pending_on 1) (run planning empty).decisions ≤ 0
unfolding is_waiting_approval
one_pending_decision_example = one_pending_decision planning refl 1 planned_task waiting

abbrev started_run : ImplementationRun
started_run = record {
  id = 30;
  task_id = 1;
  planning_run_id = 10;
  plan_id = 11;
  plan_version = 1;
  idempotency_key = 6;
  base_commit = 7;
  graph_version = "implementation-graph-v1";
  prompt_version = "file-replacement-v1";
  llm_provider = "openai";
  llm_model = "gpt";
  checkpoint_thread_id = implementation 30;
  worktree_relpath = none;
  status = RunStatus.pending;
  failure_code = none;
  failure_message = none;
}

running :
    get run_key 30 (run (planning ++ implementing) empty).implementation_runs ≡ some started_run
unfolding run step find count modify transaction is_analyzing is_waiting_approval is_approved
    action_eq plan_is_proposed plan_is_approved decision_is_pending decision_is_applied
    insert_planning_run insert_analysis insert_plan plan_clash insert_decision
    insert_implementation_run create_task new_task set_task_status get_task persist_planning
    create_decision submit_decision apply_terminal_decision decision_by_key lock_current_plan
    lock_decision require_submittable require_pending_action require_current_context planning_run
    plan_record new_decision plan_verdict task_verdict create_run start_run approved_plan
    new_implementation_run
running = refl

run_was_approved_example :
    1 ≤ count (approval_of 1) (run (planning ++ implementing) empty).decisions
run_was_approved_example = run_was_approved (planning ++ implementing) refl 30 started_run running

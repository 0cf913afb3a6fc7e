-- ===== src/PlanningStore/Examples.antt =====
-- The theorems of SqlPlanningStore on a task that waits for approval, and on its pending decision.
use issue_pilot.Prelude.{ℕ, ◌≡◌, ◌⊎◌, refl, none, some, [], ◌∷◌, true, false}
use issue_pilot.Prelude.Table.{find, modify}
use issue_pilot.Status.{
  TaskStatus, Action, PlanStatus, DecisionStatus, decision_is_pending, action_eq, plan_is_proposed,
  is_waiting_approval,
}
use issue_pilot.Schemas.{PlanningDecisionCreate, PlanningEvidenceBundle, ImplementationPlanDraft}
use issue_pilot.Result.{ok}
use issue_pilot.Db.{
  Db, Task, PlanningRun, ImplementationPlan, PlanningDecision, empty, insert_decision,
}
use issue_pilot.PlanningStore.{
  create_decision, apply_terminal_decision, decision_by_key, submit_decision, lock_current_plan,
  require_submittable, new_decision, decision_response, PlanningDecisionResponse,
}
use issue_pilot.PlanningStore.Idempotence.{create_decision_replay}
use issue_pilot.PlanningStore.Verdict.{Locked, apply_terminal_decision_once}
use issue_pilot.PlanningStore.Judged.{Judged, apply_terminal_decision-Judged}
use issue_pilot.PlanningStore.Submission.{Accepted, Replayed, create_decision-Accepted}

abbrev pub planned_task : Task
planned_task = record {
  id = 1;
  repository_url = "https://github.com/acme/shop";
  issue_text = "Reset the counter";
  status = TaskStatus.waiting_approval;
  failure_code = none;
  failure_message = none;
}

abbrev planned_run : PlanningRun
planned_run = record {
  id = 10;
  task_id = 1;
  retrieval_run_id = 3;
  commit_sha = 7;
  graph_version = "planning-graph-v1";
  llm_provider = "openai";
  llm_model = "gpt";
  analysis_prompt_version = "analysis-v1";
  plan_prompt_version = "plan-v1";
  evidence_sha256 = 8;
  evidence_count = 0;
  evidence_truncated = false;
}

abbrev bundle : PlanningEvidenceBundle
bundle = record {
  task_id = 1;
  issue = "Reset the counter";
  commit_sha = 7;
  retrieval_run_id = 3;
  evidence_sha256 = 8;
  evidence_truncated = false;
  evidence = [];
}

abbrev draft : ImplementationPlanDraft
draft = record { steps = []; test_strategy = []; risk_notes = [] }

abbrev pub first_plan : ImplementationPlan
first_plan = record {
  id = 11;
  run_id = 10;
  version = 1;
  status = PlanStatus.proposed;
  supersedes_plan_id = none;
  revision_feedback = none;
  draft = draft;
  decided_at = none;
}

abbrev pub decision : Action → PlanningDecision
decision action = record {
  id = 20;
  task_id = 1;
  run_id = 10;
  plan_id = 11;
  plan_version = 1;
  action = action;
  comment = some "Please split the second step";
  idempotency_key = 5;
  status = DecisionStatus.pending;
  failure_code = none;
  failure_message = none;
  applied_at = none;
}

abbrev waiting_db : Db
waiting_db = record empty {
  tasks = planned_task ∷ [];
  planning_runs = planned_run ∷ [];
  plans = first_plan ∷ [];
}

abbrev pub decided_db : Action → Db
decided_db action = record empty {
  tasks = (record planned_task { status = TaskStatus.decision_pending }) ∷ [];
  planning_runs = planned_run ∷ [];
  plans = first_plan ∷ [];
  decisions = decision action ∷ [];
}

abbrev pub pending_task : Task
pending_task = record planned_task { status = TaskStatus.decision_pending }

locked : (action : Action) → Locked 20 (decided_db action) (decision action) pending_task first_plan
unfolding find
locked action = record { decision_row = refl; task_row = refl; plan_row = refl }

decision-IsPending : decision_is_pending DecisionStatus.pending ≡ true
unfolding decision_is_pending
decision-IsPending = refl

plan-IsProposed : plan_is_proposed PlanStatus.proposed ≡ true
unfolding plan_is_proposed
plan-IsProposed = refl

approve_self : action_eq Action.approve Action.approve ≡ true
unfolding action_eq
approve_self = refl

apply_terminal_decision-Judged_example :
    Judged 99 20 Action.approve
      (decided_db Action.approve)
      (decision Action.approve)
      pending_task
      first_plan
      (apply_terminal_decision 99 20 Action.approve (decided_db Action.approve))
apply_terminal_decision-Judged_example =
    apply_terminal_decision-Judged 99 20 Action.approve (decided_db Action.approve)
      (decision Action.approve) pending_task first_plan (locked Action.approve)

apply_terminal_decision_once_example :
    (db' : Db) × (apply_terminal_decision 99 20 Action.approve (decided_db Action.approve)
      ≡ ok (tt, db'))
    × (apply_terminal_decision 100 20 Action.reject db' ≡ ok (tt, db'))
apply_terminal_decision_once_example =
    apply_terminal_decision_once 99 100 20 Action.approve Action.reject (decided_db Action.approve)
      (decision Action.approve) pending_task first_plan (locked Action.approve) decision-IsPending
      approve_self plan-IsProposed

abbrev payload : ℕ → PlanningDecisionCreate
payload version = record {
  action = Action.request_changes;
  expected_plan_version = version;
  idempotency_key = 5;
  comment = some "Please split the second step";
}

abbrev answer : PlanningDecisionResponse
answer = record {
  decision_id = 20;
  task_id = 1;
  action = Action.request_changes;
  status = DecisionStatus.pending;
  plan_version = 1;
  task_status = TaskStatus.decision_pending;
  comment = some "Please split the second step";
  applied_at = none;
}

submitted :
    create_decision 20 1 (payload 1) waiting_db ≡ ok (answer, decided_db Action.request_changes)
unfolding create_decision submit_decision find modify decision_by_key lock_current_plan
    require_submittable insert_decision new_decision decision_response is_waiting_approval
    plan_is_proposed
submitted = refl

create_decision_replay_example :
    create_decision 77 1 (payload 1) (decided_db Action.request_changes)
    ≡ ok (answer, decided_db Action.request_changes)
create_decision_replay_example =
    create_decision_replay 20 77 1 (payload 1) waiting_db answer (decided_db Action.request_changes)
      submitted

create_decision-Accepted_example :
    Accepted 20 1 (payload 1) waiting_db answer (decided_db Action.request_changes)
    ⊎ Replayed 1 (payload 1) waiting_db answer (decided_db Action.request_changes)
create_decision-Accepted_example =
    create_decision-Accepted 20 1 (payload 1) waiting_db answer (decided_db Action.request_changes)
      submitted

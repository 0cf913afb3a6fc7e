-- ===== src/PlanningStore/Rows.antt =====
-- The rows that SqlPlanningStore writes: the helpers below the class in
-- backend/app/services/planning_store.py, and the assignments to the columns of loaded rows.
use issue_pilot.Prelude.{ℕ, String, Option, none, some, length}
use issue_pilot.Status.{TaskStatus, Action, PlanStatus, DecisionStatus}
use issue_pilot.Schemas.{PlanningDecisionCreate, PlanningEvidenceBundle, ImplementationPlanDraft}
use issue_pilot.Db.{Task, PlanningRun, ImplementationPlan, PlanningDecision}

pub record PlanningDecisionResponse : Type 0 where
  pub decision_id : ℕ
  pub task_id : ℕ
  pub action : Action
  pub status : DecisionStatus
  pub plan_version : ℕ
  pub task_status : TaskStatus
  pub comment : Option String
  pub applied_at : Option ℕ

unfoldable pub decision_response : PlanningDecision → TaskStatus → PlanningDecisionResponse
decision_response d task_status = record {
  decision_id = d.id;
  task_id = d.task_id;
  action = d.action;
  status = d.status;
  plan_version = d.plan_version;
  task_status = task_status;
  comment = d.comment;
  applied_at = d.applied_at;
}

-- task.status = s, with the failure columns
abbrev pub mark : TaskStatus → Option String → Option String → Task → Task
mark s code message task = record task {
  status = s;
  failure_code = code;
  failure_message = message;
}

-- task.status = s alone
abbrev pub mark_status : TaskStatus → Task → Task
mark_status s task = record task { status = s }

unfoldable pub planning_run : ℕ → PlanningEvidenceBundle → String → String → String → PlanningRun
planning_run run_id bundle provider model graph_version = record {
  id = run_id;
  task_id = bundle.task_id;
  retrieval_run_id = bundle.retrieval_run_id;
  commit_sha = bundle.commit_sha;
  graph_version = graph_version;
  llm_provider = provider;
  llm_model = model;
  analysis_prompt_version = "analysis-v1";
  plan_prompt_version = "plan-v1";
  evidence_sha256 = bundle.evidence_sha256;
  evidence_count = length bundle.evidence;
  evidence_truncated = bundle.evidence_truncated;
}

unfoldable pub plan_record : ℕ → ℕ → ImplementationPlanDraft → ImplementationPlan
plan_record plan_id run_id draft = record {
  id = plan_id;
  run_id = run_id;
  version = 1;
  status = PlanStatus.proposed;
  supersedes_plan_id = none;
  revision_feedback = none;
  draft = draft;
  decided_at = none;
}

unfoldable pub revision_record :
    ℕ → ℕ → ℕ → ℕ → ImplementationPlanDraft → String → ImplementationPlan
revision_record plan_id run_id previous_id version draft feedback = record {
  id = plan_id;
  run_id = run_id;
  version = version;
  status = PlanStatus.proposed;
  supersedes_plan_id = some previous_id;
  revision_feedback = some feedback;
  draft = draft;
  decided_at = none;
}

unfoldable pub new_decision :
    ℕ → ℕ → PlanningDecisionCreate → PlanningRun → ImplementationPlan → PlanningDecision
new_decision decision_id t payload run plan = record {
  id = decision_id;
  task_id = t;
  run_id = run.id;
  plan_id = plan.id;
  plan_version = plan.version;
  action = payload.action;
  comment = payload.comment;
  idempotency_key = payload.idempotency_key;
  status = DecisionStatus.pending;
  failure_code = none;
  failure_message = none;
  applied_at = none;
}

abbrev pub decide_plan : PlanStatus → ℕ → ImplementationPlan → ImplementationPlan
decide_plan s now plan = record plan { status = s; decided_at = some now }

abbrev pub apply_decision_row : ℕ → PlanningDecision → PlanningDecision
apply_decision_row now d = record d { status = DecisionStatus.applied; applied_at = some now }

-- `"approved" if action == "approve" else "rejected"`, for the plan and for the task
unfoldable pub plan_verdict : Action → PlanStatus
plan_verdict Action.approve = PlanStatus.approved
plan_verdict _ = PlanStatus.rejected

unfoldable pub task_verdict : Action → TaskStatus
task_verdict Action.approve = TaskStatus.approved
task_verdict _ = TaskStatus.rejected

abbrev pub fail_decision_row : String → String → PlanningDecision → PlanningDecision
fail_decision_row code message d = record d {
  status = DecisionStatus.failed;
  failure_code = some code;
  failure_message = some message;
}

-- ===== src/PlanningStore/Guards.antt =====
-- The lookups and the checks that the methods of SqlPlanningStore begin with
-- (backend/app/services/planning_store.py).
use issue_pilot.Prelude.{ℕ, Option, none, some, Bool, false, ◌&&◌, ◌==◌, text_eq?, if◌then◌else◌}
use issue_pilot.Prelude.Table.{find, get}
use issue_pilot.Status.{
  Action, is_analyzing, is_waiting_approval, action_eq, plan_is_proposed, decision_is_pending,
}
use issue_pilot.Schemas.{PlanningDecisionCreate, PlanningEvidenceBundle}
use issue_pilot.Result.{
  Result, ok, err, require, task_not_found, workspace_inconsistent, planning_conflict,
  decision_not_found, approval_not_ready, plan_version_conflict, decision_already_applied, ◌>>=◌,
  ◌>>◌,
}
use issue_pilot.Db.{
  Db, Task, RepositorySnapshot, CodeIndex, RetrievalRun, PlanningRun, ImplementationPlan,
  PlanningDecision, task_key, plan_key, decision_key,
}
use issue_pilot.Transaction.{some_or}

abbrev pub lock_task : ℕ → Db → Result Task
lock_task t db = some_or task_not_found (get task_key t db.tasks)

abbrev pub has_key : ℕ → ℕ → PlanningDecision → Bool
has_key t key d = d.task_id == t && d.idempotency_key == key

unfoldable pub decision_by_key : ℕ → ℕ → Db → Option PlanningDecision
decision_by_key t key db = find (has_key t key) db.decisions

abbrev pub run_of_task : ℕ → PlanningRun → Bool
run_of_task t r = r.task_id == t

abbrev pub proposed_of : ℕ → ImplementationPlan → Bool
proposed_of run p = p.run_id == run && plan_is_proposed p.status

-- The join on run_id. A task has one planning run (uq_planning_runs_task).
unfoldable pub lock_current_plan : ℕ → Db → Result (PlanningRun × ImplementationPlan)
lock_current_plan t db = do
  run ← some_or (planning_conflict approval_not_ready) (find (run_of_task t) db.planning_runs)
  plan ← some_or (planning_conflict approval_not_ready) (find (proposed_of run.id) db.plans)
  ok (run, plan)

unfoldable pub lock_decision : ℕ → Db → Result (PlanningDecision × Task × ImplementationPlan)
lock_decision d db = do
  decision ← some_or (planning_conflict decision_not_found) (get decision_key d db.decisions)
  task ← some_or task_not_found (get task_key decision.task_id db.tasks)
  plan ← some_or (planning_conflict approval_not_ready) (get plan_key decision.plan_id db.plans)
  ok (decision, task, plan)

unfoldable pub same_decision : PlanningDecision → PlanningDecisionCreate → Bool
same_decision d payload =
    action_eq d.action payload.action
    && (d.plan_version == payload.expected_plan_version && text_eq? d.comment payload.comment)

unfoldable pub require_submittable : Task → ImplementationPlan → ℕ → Result (Unit {0})
require_submittable task plan expected = do
  require (is_waiting_approval task.status) (planning_conflict approval_not_ready)
  require (plan.version == expected) (planning_conflict plan_version_conflict)

unfoldable pub require_pending_action :
    PlanningDecision → ImplementationPlan → Action → Result (Unit {0})
require_pending_action d plan action = do
  require (decision_is_pending d.status) (planning_conflict decision_already_applied)
  require (action_eq d.action action && plan_is_proposed plan.status)
      (planning_conflict approval_not_ready)

unfoldable pub matches_bundle : PlanningRun → PlanningEvidenceBundle → Bool
matches_bundle run bundle =
    run.task_id == bundle.task_id
    && (run.retrieval_run_id == bundle.retrieval_run_id
        && (run.commit_sha == bundle.commit_sha && run.evidence_sha256 == bundle.evidence_sha256))

-- `row is not None and row.commit_sha == commit`
abbrev pub snapshot_at : ℕ → Option RepositorySnapshot → Bool
snapshot_at commit none = false
snapshot_at commit (some s) = s.commit_sha == commit

abbrev pub index_at : ℕ → Option CodeIndex → Bool
index_at commit none = false
index_at commit (some i) = i.commit_sha == commit

abbrev pub retrieval_at : ℕ → ℕ → Option RetrievalRun → Bool
retrieval_at t commit none = false
retrieval_at t commit (some r) = r.task_id == t && r.commit_sha == commit

unfoldable pub require_current_context : PlanningEvidenceBundle → Db → Result (Unit {0})
require_current_context bundle db = do
  task ← lock_task bundle.task_id db
  require
      (is_analyzing task.status
        && (snapshot_at bundle.commit_sha (find (λ s. s.task_id == bundle.task_id) db.snapshots)
            && (index_at bundle.commit_sha (find (λ i. i.task_id == bundle.task_id) db.code_indexes)
                && retrieval_at bundle.task_id bundle.commit_sha
                    (find (λ r. r.id == bundle.retrieval_run_id) db.retrieval_runs))))
      workspace_inconsistent

-- `run is None or not _matches_bundle(run, bundle)`
abbrev pub run_matches : PlanningEvidenceBundle → Option PlanningRun → Result PlanningRun
run_matches bundle none = err workspace_inconsistent
run_matches bundle (some run) =
    if matches_bundle run bundle then ok run else err workspace_inconsistent

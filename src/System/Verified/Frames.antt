-- ===== src/System/Verified/Frames.antt =====
-- The methods of SqlPlanningStore and TaskService against the invariant of runs, patches and tests.
use issue_pilot.Prelude.{ℕ, String, Option, Bool}
use issue_pilot.Prelude.Table.{get}
use issue_pilot.Status.{TaskStatus, Action, decision_is_applied, decision_is_pending}
use issue_pilot.Schemas.{
  PlanningDecisionCreate, PlanningEvidenceBundle, RequirementAnalysisDraft, ImplementationPlanDraft,
}
use issue_pilot.Result.{require, planning_conflict, idempotency_key_conflict}
use issue_pilot.Db.{
  Db, task_key, insert, insert_planning_run, insert_analysis, insert_plan, insert_decision,
}
use issue_pilot.Transaction.{Ends, Ends-ok, Ends-bind, Ends-if, Ends-option}
use issue_pilot.TaskService
use issue_pilot.PlanningStore
use issue_pilot.PlanningStore.{
  lock_task, lock_decision, lock_current_plan, require_current_context, require_submittable,
  require_pending_action, run_matches, same_decision, decision_by_key, submit_decision,
}
use issue_pilot.System.Verified.{IsVerified}

module _ (db : Db) (h : IsVerified db) where
  pub create_task-IsVerified :
      (t : ℕ) (url issue : String) → Ends IsVerified (TaskService.create_task t url issue db)
  unfolding TaskService.create_task
  create_task-IsVerified t url issue = Ends-bind (insert _ _ _) _ λ tasks _. Ends-ok _ _ h

  pub set_task_status-IsVerified :
      (t : ℕ) (status : TaskStatus) (code message : Option String)
      → Ends IsVerified (TaskService.set_task_status t status code message db)
  unfolding TaskService.set_task_status
  set_task_status-IsVerified t status code message =
      Ends-bind (TaskService.get_task t db) _ λ task _. Ends-ok _ _ h

  pub set_failure_if_status_in-IsVerified :
      (t : ℕ) (expected : TaskStatus → Bool) (code message : String)
      → Ends IsVerified (TaskService.set_failure_if_status_in t expected code message db)
  unfolding TaskService.set_failure_if_status_in
  set_failure_if_status_in-IsVerified t expected code message =
      Ends-option (get task_key t db.tasks) _ _ (λ _. Ends-ok _ _ h)
        λ task _. Ends-if (expected task.status) _ _ (λ _. Ends-ok _ _ h) (λ _. Ends-ok _ _ h)

  pub persist_planning-IsVerified :
      (run_id plan_id : ℕ) (bundle : PlanningEvidenceBundle) (analysis : RequirementAnalysisDraft)
      (plan : ImplementationPlanDraft) (provider model version : String)
      → Ends IsVerified (
          PlanningStore.persist_planning run_id plan_id bundle analysis plan provider model version
            db)
  unfolding PlanningStore.persist_planning
  persist_planning-IsVerified run_id plan_id bundle analysis plan provider model version =
      Ends-bind (require_current_context bundle db) _ λ _ _.
        Ends-bind (insert_planning_run _ _) _ λ runs _.
          Ends-bind (insert_analysis _ _) _
            λ analyses _. Ends-bind (insert_plan _ _) _ λ plans _. Ends-ok _ _ h

  pub create_decision-IsVerified :
      (d t : ℕ) (payload : PlanningDecisionCreate)
      → Ends IsVerified (PlanningStore.create_decision d t payload db)
  unfolding PlanningStore.create_decision submit_decision
  create_decision-IsVerified d t payload = Ends-bind (lock_task t db) _ λ task _.
      Ends-option (decision_by_key t payload.idempotency_key db) _ _
        (λ _. Ends-bind (lock_current_plan t db) _ λ (run, plan) _.
          Ends-bind (require_submittable task plan _) _
            λ _ _. Ends-bind (insert_decision _ _) _ λ decisions _. Ends-ok _ _ h)
        λ existing _.
          Ends-bind
            (require (same_decision existing payload) (planning_conflict idempotency_key_conflict))
            _ λ _ _. Ends-ok _ _ h

  pub apply_terminal_decision-IsVerified :
      (now d : ℕ) (action : Action)
      → Ends IsVerified (PlanningStore.apply_terminal_decision now d action db)
  unfolding PlanningStore.apply_terminal_decision
  apply_terminal_decision-IsVerified now d action =
      Ends-bind (lock_decision d db) _ λ (x, task, plan) _.
        Ends-if (decision_is_applied x.status) _ _ (λ _. Ends-ok _ _ h)
          λ _. Ends-bind (require_pending_action x plan action) _ λ _ _. Ends-ok _ _ h

  pub persist_revision-IsVerified :
      (plan_id now d : ℕ) (bundle : PlanningEvidenceBundle) (draft : ImplementationPlanDraft)
      (feedback : String)
      → Ends IsVerified (PlanningStore.persist_revision plan_id now d bundle draft feedback db)
  unfolding PlanningStore.persist_revision
  persist_revision-IsVerified plan_id now d bundle draft feedback =
      Ends-bind (lock_decision d db) _ λ (x, task, previous) _.
        Ends-bind (require_pending_action x previous Action.request_changes) _ λ _ _.
          Ends-bind (run_matches bundle _) _
            λ run _. Ends-bind (insert_plan _ _) _ λ plans _. Ends-ok _ _ h

  pub fail_decision-IsVerified :
      (d : ℕ) (status : TaskStatus) (code message : String)
      → Ends IsVerified (PlanningStore.fail_decision d status code message db)
  unfolding PlanningStore.fail_decision
  fail_decision-IsVerified d status code message =
      Ends-bind (lock_decision d db) _ λ (x, task, plan) _.
        Ends-if (decision_is_pending x.status) _ _ (λ _. Ends-ok _ _ h) (λ _. Ends-ok _ _ h)

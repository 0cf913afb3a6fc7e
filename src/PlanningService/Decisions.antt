-- ===== src/PlanningService/Decisions.antt =====
-- `process_decision` and `_failure_code` of backend/app/services/planning_service.py. The checks of the
-- stored planning and of its evidence, and the graph that the decision resumes, are arguments: each
-- a step on the database that returns or raises.
pub mod Recorded
mod Examples
use issue_pilot.Prelude.{
  ℕ, String, Option, none, some, Bool, true, false, not, ◌&&◌, leb, if◌then◌else◌,
}
use issue_pilot.Status.{TaskStatus, Action, is_analyzing, action_eq, decision_is_pending}
use issue_pilot.Schemas.{PlanningDecisionCreate}
use issue_pilot.Result.{Error, Result, ok, err, planning_conflict, plan_revision_limit}
use issue_pilot.Db.{Db}
use issue_pilot.Transaction.{transaction}
use issue_pilot.PlanningStore.{
  PlanningDecisionResponse, create_decision, load_decision, fail_decision, set_status,
}

-- The exceptions of the planning service; those of the store are `store_error`, WorkspaceInconsistentError
-- apart.
pub data PlanningError : Type 0 where
  inconsistent recovery_blocked_error approval_disabled not_ready : PlanningError
  llm_unavailable llm_invalid_response evidence_invalid context_limit : PlanningError
  checkpointer_unavailable other_error : PlanningError
  store_error : Error → PlanningError

pub data Planned {ℓ} (A : Type ℓ) : Type ℓ where
  done : A → Planned A
  failed : PlanningError → Planned A

abbrev pub from_store {ℓ} : {A : Type ℓ} → Result A → Planned A
from_store (ok a) = done a
from_store (err error) = failed (store_error error)

unfoldable pub failure_code : PlanningError → String
failure_code llm_unavailable = "LLM_UNAVAILABLE"
failure_code llm_invalid_response = "LLM_INVALID_RESPONSE"
failure_code context_limit = "PLANNING_CONTEXT_LIMIT_EXCEEDED"
failure_code evidence_invalid = "PLANNING_EVIDENCE_INVALID"
failure_code inconsistent = "WORKSPACE_INCONSISTENT"
failure_code _ = "PLANNING_FAILED"

abbrev pub Step : Type 0
Step = Db → Planned (Unit {0}) × Db

-- `await self._store.…`, a transaction that the database may fail.
abbrev pub stored : Result (Unit {0}) × Db → Planned (Unit {0}) × Db
stored (r, db) = (from_store r, db)

-- The exceptions after which the decision can be taken again.
unfoldable pub is_retryable : PlanningError → Bool
is_retryable llm_unavailable = true
is_retryable llm_invalid_response = true
is_retryable evidence_invalid = true
is_retryable context_limit = true
is_retryable _ = false

-- `message` is FAILURE_MESSAGES.
module _ (message : String → String) where
  -- The `except` clauses of `process_decision`.
  unfoldable pub handle_decision :
      (fault : Bool) → (d : ℕ) → Planned (Unit {0}) × Db → Planned (Unit {0}) × Db
  handle_decision fault d (done _, db) = (done tt, db)
  handle_decision fault d (failed inconsistent, db) = stored (
      transaction fault
        (fail_decision d TaskStatus.recovery_blocked "WORKSPACE_INCONSISTENT"
          (message "WORKSPACE_INCONSISTENT"))
        db)
  handle_decision fault d (failed error, db) =
      if is_retryable error
      then stored (
          transaction fault
            (fail_decision d TaskStatus.waiting_approval (failure_code error)
              (message (failure_code error)))
            db)
      else (failed error, db)

  -- The `try` block: the checks, the status of a revision, and the graph.
  unfoldable pub resume_after_checks :
      (status_fault : Bool)
      → (resume : Step) → PlanningDecisionResponse
      → Planned (Unit {0}) × Db
      → Planned (Unit {0}) × Db
  resume_after_checks status_fault resume decision (failed error, db) = (failed error, db)
  resume_after_checks status_fault resume decision (done _, db) =
      if action_eq decision.action Action.request_changes
      then and_resume (
          stored (
            transaction status_fault (set_status decision.task_id TaskStatus.revising none none)
              db))
      else resume db
    where
      and_resume : Planned (Unit {0}) × Db → Planned (Unit {0}) × Db
      and_resume (done _, db') = resume db'
      and_resume (failed error, db') = (failed error, db')

  unfoldable pub process_loaded :
      (checks resume : Step) → (status_fault fault : Bool) → Result PlanningDecisionResponse → Step
  process_loaded checks resume status_fault fault (err error) db = (failed (store_error error), db)
  process_loaded checks resume status_fault fault (ok decision) db =
      if not (decision_is_pending decision.status)
      then (done tt, db)
      else handle_decision fault decision.decision_id
          (resume_after_checks status_fault resume decision (checks db))

  unfoldable pub process_decision :
      (checks resume : Step) → (status_fault fault : Bool) → (d : ℕ) → Step
  process_decision checks resume status_fault fault d db =
      process_loaded checks resume status_fault fault (load_decision d db) db

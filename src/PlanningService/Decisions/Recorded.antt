-- ===== src/PlanningService/Decisions/Recorded.antt =====
-- On what `process_decision` of backend/app/services/planning_service.py records of an exception.
use issue_pilot.Prelude.{ℕ, ◌≡◌, refl, String, Option, none, some, Bool, true, false}
use issue_pilot.Prelude.Table.{get, get-modify_self}
use issue_pilot.Status.{TaskStatus, DecisionStatus, decision_is_pending}
use issue_pilot.Result.{ok}
use issue_pilot.Db.{Db, Task, ImplementationPlan, PlanningDecision, task_key, decision_key}
use issue_pilot.Transaction.{transaction}
use issue_pilot.PlanningStore.{
  PlanningDecisionResponse, load_decision, lock_decision, fail_decision, fail_decision_row, mark,
}
use issue_pilot.PlanningService.Decisions.{
  PlanningError, Planned, Step, done, failed, stored, failure_code, is_retryable, handle_decision,
  resume_after_checks, process_loaded, process_decision, inconsistent, llm_unavailable,
  llm_invalid_response, evidence_invalid, context_limit,
}

-- The rows that a decision is recorded in.
pub record HasDecision (d : ℕ) (row : PlanningDecision) (task : Task) (db : Db) : Type 0 where
  pub plan : ImplementationPlan
  pub locked : lock_decision d db ≡ ok (row, task, plan)
  pub decision_row : get decision_key d db.decisions ≡ some row
  pub task_row : get task_key task.id db.tasks ≡ some task

-- The processing returns; the decision has failed with the code, and the task has the status.
pub record FailedWith (d : ℕ) (row : PlanningDecision) (task : Task) (status : TaskStatus)
    (code message : String) (r : Planned (Unit {0}) × Db) : Type 0 where
  pub returned : r.0 ≡ done tt
  pub decision_failed :
      get decision_key d r.1.decisions
      ≡ some (record row {
        status = DecisionStatus.failed;
        failure_code = some code;
        failure_message = some message;
      })
  pub task_marked :
      get task_key task.id r.1.tasks
      ≡ some (record task {
        status = status;
        failure_code = some code;
        failure_message = some message;
      })

fail_decision-FailedWith :
    (d : ℕ) (row : PlanningDecision) (task : Task) (status : TaskStatus) (code message : String)
    (db : Db)
    → HasDecision d row task db
    → decision_is_pending row.status ≡ true
    → FailedWith d row task status code message
        (stored (transaction false (fail_decision d status code message) db))
unfolding transaction fail_decision
fail_decision-FailedWith d row task status code message db h p =
    rw (h.locked, p)
      (record {
        returned = refl;
        decision_failed =
            get-modify_self decision_key d (fail_decision_row code message) db.decisions row
              (λ x. refl) h.decision_row;
        task_marked =
            get-modify_self task_key task.id (mark status (some code) (some message)) db.tasks task
              (λ x. refl) h.task_row;
      })

-- What a decision and its task hold after an exception, written out apart from the clauses that
-- choose it; none for an exception that is raised again.
abbrev pub report_of : PlanningError → Option (TaskStatus × String)
report_of inconsistent = some (TaskStatus.recovery_blocked, "WORKSPACE_INCONSISTENT")
report_of llm_unavailable = some (TaskStatus.waiting_approval, "LLM_UNAVAILABLE")
report_of llm_invalid_response = some (TaskStatus.waiting_approval, "LLM_INVALID_RESPONSE")
report_of evidence_invalid = some (TaskStatus.waiting_approval, "PLANNING_EVIDENCE_INVALID")
report_of context_limit = some (TaskStatus.waiting_approval, "PLANNING_CONTEXT_LIMIT_EXCEEDED")
report_of _ = none

module _ (message : String → String) where
  abbrev Raised :
      Option (TaskStatus × String)
      → ℕ
      → PlanningDecision
      → Task
      → PlanningError
      → Db
      → Planned (Unit {0}) × Db
      → Type 0
  Raised none d row task error db result = result ≡ (failed error, db)
  Raised (some (status, code)) d row task error db result =
      FailedWith d row task status code (message code) result

  -- What becomes of the outcome of the checks and of the graph.
  abbrev pub Handled :
      ℕ → PlanningDecision → Task → (outcome result : Planned (Unit {0}) × Db) → Type 0
  Handled d row task (done _, db) result = result ≡ (done tt, db)
  Handled d row task (failed error, db) result = Raised (report_of error) d row task error db result

  handle_decision-Handled :
      (d : ℕ) (row : PlanningDecision) (task : Task) (outcome : Planned (Unit {0}) × Db)
      → HasDecision d row task outcome.1
      → decision_is_pending row.status ≡ true
      → Handled d row task outcome (handle_decision message false d outcome)
  unfolding handle_decision is_retryable failure_code
  handle_decision-Handled d row task (done _, db) h p = refl
  handle_decision-Handled d row task (failed inconsistent, db) h p =
      fail_decision-FailedWith d row task TaskStatus.recovery_blocked "WORKSPACE_INCONSISTENT"
        (message "WORKSPACE_INCONSISTENT") db h p
  handle_decision-Handled d row task (failed llm_unavailable, db) h p =
      fail_decision-FailedWith d row task TaskStatus.waiting_approval "LLM_UNAVAILABLE"
        (message "LLM_UNAVAILABLE") db h p
  handle_decision-Handled d row task (failed llm_invalid_response, db) h p =
      fail_decision-FailedWith d row task TaskStatus.waiting_approval "LLM_INVALID_RESPONSE"
        (message "LLM_INVALID_RESPONSE") db h p
  handle_decision-Handled d row task (failed evidence_invalid, db) h p =
      fail_decision-FailedWith d row task TaskStatus.waiting_approval "PLANNING_EVIDENCE_INVALID"
        (message "PLANNING_EVIDENCE_INVALID") db h p
  handle_decision-Handled d row task (failed context_limit, db) h p =
      fail_decision-FailedWith d row task TaskStatus.waiting_approval
        "PLANNING_CONTEXT_LIMIT_EXCEEDED" (message "PLANNING_CONTEXT_LIMIT_EXCEEDED") db h p
  handle_decision-Handled d row task (failed PlanningError.recovery_blocked_error, db) h p = refl
  handle_decision-Handled d row task (failed PlanningError.approval_disabled, db) h p = refl
  handle_decision-Handled d row task (failed PlanningError.not_ready, db) h p = refl
  handle_decision-Handled d row task (failed PlanningError.checkpointer_unavailable, db) h p = refl
  handle_decision-Handled d row task (failed PlanningError.other_error, db) h p = refl
  handle_decision-Handled d row task (failed (PlanningError.store_error e), db) h p = refl

  -- What process_decision does with a decision of the status.
  abbrev pub Processed :
      ℕ
      → PlanningDecision
      → Task
      → (before : Db) (outcome : Planned (Unit {0}) × Db) → DecisionStatus
      → Planned (Unit {0}) × Db
      → Type 0
  Processed d row task before outcome DecisionStatus.pending result =
      Handled d row task outcome result
  Processed d row task before outcome DecisionStatus.applied result = result ≡ (done tt, before)
  Processed d row task before outcome DecisionStatus.failed result = result ≡ (done tt, before)

  process_loaded-Processed :
      (checks resume : Step) (status_fault : Bool) (decision : PlanningDecisionResponse)
      (status : DecisionStatus) (row : PlanningDecision) (task : Task) (before : Db)
      → decision.status ≡ status
      → HasDecision decision.decision_id row task
          (resume_after_checks message status_fault resume decision (checks before)).1
      → decision_is_pending row.status ≡ true
      → Processed decision.decision_id row task before
          (resume_after_checks message status_fault resume decision (checks before))
          status
          (process_loaded message checks resume status_fault false (ok decision) before)
  unfolding process_loaded decision_is_pending resume_after_checks
  process_loaded-Processed checks resume fault decision DecisionStatus.pending row task before s h
        p =
      rw s (
        handle_decision-Handled decision.decision_id row task
          (resume_after_checks message fault resume decision (checks before)) h p)
  process_loaded-Processed checks resume fault decision DecisionStatus.applied row task before s h
        p =
      rw s refl
  process_loaded-Processed checks resume fault decision DecisionStatus.failed row task before s h
        p =
      rw s refl

  -- If a decision loads, its rows exist and are still pending when the checks and the graph have
  -- ended, and the database takes the record, then process_decision leaves the database as it
  -- is for a decision that is not pending. For a pending one it returns if the checks and
  -- the graph did. If they raise an inconsistency of the workspace, a fault of the model, invalid
  -- evidence or too long a context, it returns, the decision has failed with the code of the
  -- exception, and its task is recovery_blocked after an inconsistency and else waits for
  -- approval again. Any other exception it raises again, and records nothing.
  pub process_decision-FailedWith :
      (checks resume : Step) (status_fault : Bool) (decision : PlanningDecisionResponse)
      (row : PlanningDecision) (task : Task) (before : Db)
      → load_decision decision.decision_id before ≡ ok decision
      → HasDecision decision.decision_id row task
          (resume_after_checks message status_fault resume decision (checks before)).1
      → decision_is_pending row.status ≡ true
      → Processed decision.decision_id row task before
          (resume_after_checks message status_fault resume decision (checks before))
          decision.status
          (process_decision message checks resume status_fault false decision.decision_id before)
  unfolding process_decision
  process_decision-FailedWith checks resume status_fault decision row task before l h p = rw l (
      process_loaded-Processed checks resume status_fault decision decision.status row task before
        refl h p)

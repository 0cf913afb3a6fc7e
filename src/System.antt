-- ===== src/System.antt =====
-- The whole workflow over one database: every method of TaskService, SqlPlanningStore and
-- SqlImplementationStore that writes, in any order and with any database faults. The API routes, the
-- workers and the recovery at startup reach the tables through these calls only.
pub mod Invariant
mod Tables
mod Tasks
mod Planning
mod Decisions
mod Implementing
mod Testing
pub mod Verified
pub mod Reach
mod Scenario
mod Examples
use issue_pilot.Prelude.{ℕ, String, Option, List, [], ◌∷◌, Bool, true, false}
use issue_pilot.Status.{TaskStatus, Action}
use issue_pilot.Schemas.{
  PlanningDecisionCreate, PlanningEvidenceBundle, RequirementAnalysisDraft, ImplementationPlanDraft,
  ImplementationCreate, TestRunCreate, PatchArtifactDraft, TestExecutionResult,
}
use issue_pilot.Db.{Db, RepositorySnapshot, CodeIndex, RetrievalRun}
use issue_pilot.Transaction.{transaction}
use issue_pilot.TaskService
use issue_pilot.PlanningStore
use issue_pilot.ImplementationStore

pub data Request : Type 0 where
  create_task : (t : ℕ) → (repository_url issue : String) → Request
  set_status : (t : ℕ) → TaskStatus → (code message : Option String) → Request
  set_failure_if_status_in :
      (t : ℕ) → (expected : TaskStatus → Bool) → (code message : String) → Request
  scan : List RepositorySnapshot → List CodeIndex → List RetrievalRun → Request
  persist_planning :
      (run_id plan_id : ℕ)
      → PlanningEvidenceBundle
      → RequirementAnalysisDraft
      → ImplementationPlanDraft
      → (provider model graph_version : String) → Request
  create_decision : (decision_id t : ℕ) → PlanningDecisionCreate → Request
  apply_terminal_decision : (now d : ℕ) → Action → Request
  persist_revision :
      (plan_id now d : ℕ) → PlanningEvidenceBundle → ImplementationPlanDraft → String → Request
  fail_decision : (d : ℕ) → TaskStatus → (code message : String) → Request
  create_run : (run_id t : ℕ) → ImplementationCreate → (provider model : String) → Request
  set_generating : (run_id : ℕ) → (worktree_relpath : String) → Request
  persist_patch : (run_id : ℕ) → PatchArtifactDraft → Request
  create_test : (test_id t : ℕ) → TestRunCreate → (runner_image : String) → Request
  mark_testing : (test_id : ℕ) → Request
  persist_test_result : (now test_id : ℕ) → TestExecutionResult → Request
  fail : (run_id : ℕ) → (code message : String) → (recovery_blocked : Bool) → Request

-- One request, as one transaction. `scan` stands for the repository, index and retrieval services,
-- which own the three tables that it replaces.
unfoldable pub step : Bool → Request → Db → Db
step fault (create_task t repository_url issue) db =
    (transaction fault (TaskService.create_task t repository_url issue) db).1
step fault (set_status t status code message) db =
    (transaction fault (TaskService.set_task_status t status code message) db).1
step fault (set_failure_if_status_in t expected code message) db =
    (transaction fault (TaskService.set_failure_if_status_in t expected code message) db).1
step fault (scan snapshots indexes retrievals) db = record db {
  snapshots = snapshots;
  code_indexes = indexes;
  retrieval_runs = retrievals;
}
step fault (persist_planning run_id plan_id bundle analysis plan provider model version) db =
    (transaction fault
      (PlanningStore.persist_planning run_id plan_id bundle analysis plan provider model version)
      db).1
step fault (create_decision decision_id t payload) db =
    (transaction fault (PlanningStore.create_decision decision_id t payload) db).1
step fault (apply_terminal_decision now d action) db =
    (transaction fault (PlanningStore.apply_terminal_decision now d action) db).1
step fault (persist_revision plan_id now d bundle plan feedback) db =
    (transaction fault (PlanningStore.persist_revision plan_id now d bundle plan feedback) db).1
step fault (fail_decision d status code message) db =
    (transaction fault (PlanningStore.fail_decision d status code message) db).1
step fault (create_run run_id t payload provider model) db =
    (transaction fault (ImplementationStore.create_run run_id t payload provider model) db).1
step fault (set_generating run_id worktree_relpath) db =
    (transaction fault (ImplementationStore.set_generating run_id worktree_relpath) db).1
step fault (persist_patch run_id draft) db =
    (transaction fault (ImplementationStore.persist_patch run_id draft) db).1
step fault (create_test test_id t payload runner_image) db =
    (transaction fault (ImplementationStore.create_test test_id t payload runner_image) db).1
step fault (mark_testing test_id) db =
    (transaction fault (ImplementationStore.mark_testing test_id) db).1
step fault (persist_test_result now test_id result) db =
    (transaction fault (ImplementationStore.persist_test_result now test_id result) db).1
step fault (fail run_id code message recovery_blocked) db =
    (transaction fault (ImplementationStore.fail run_id code message recovery_blocked) db).1

unfoldable pub run : List (Bool × Request) → Db → Db
run [] db = db
run ((fault, request) ∷ rest) db = run rest (step fault request db)

-- The statuses that the services hand to `set_status`: queued at creation, those of the repository
-- pipeline, revising, recovery_blocked and failed.
abbrev pub is_service_status : TaskStatus → Bool
is_service_status TaskStatus.queued = true
is_service_status TaskStatus.cloning = true
is_service_status TaskStatus.cloned = true
is_service_status TaskStatus.indexing = true
is_service_status TaskStatus.indexed = true
is_service_status TaskStatus.retrieving = true
is_service_status TaskStatus.retrieved = true
is_service_status TaskStatus.analyzing = true
is_service_status TaskStatus.revising = true
is_service_status TaskStatus.recovery_blocked = true
is_service_status TaskStatus.failed = true
is_service_status _ = false

-- `fail_decision` is called with these two.
abbrev pub is_failure_status : TaskStatus → Bool
is_failure_status TaskStatus.recovery_blocked = true
is_failure_status TaskStatus.waiting_approval = true
is_failure_status _ = false

-- The terminal decisions are approve and reject.
abbrev pub is_terminal : Action → Bool
is_terminal Action.request_changes = false
is_terminal _ = true

-- What the callers of the stores pass.
abbrev pub is_service_call : Request → Bool
is_service_call (set_status t status code message) = is_service_status status
is_service_call (fail_decision d status code message) = is_failure_status status
is_service_call (apply_terminal_decision now d action) = is_terminal action
is_service_call _ = true

abbrev pub are_service_calls : List (Bool × Request) → Bool
are_service_calls [] = true
are_service_calls ((fault, request) ∷ rest) =
    let tail = are_service_calls rest in
    elim (is_service_call request) [ true ↦ tail | false ↦ false ]

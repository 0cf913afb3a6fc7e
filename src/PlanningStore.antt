-- ===== src/PlanningStore.antt =====
-- SqlPlanningStore of backend/app/services/planning_store.py. Each method is the body of a
-- transaction; the ids that `uuid.uuid4()` draws and the time come as arguments. Rows stand in the
-- order of their creation, which is the order of created_at.
mod Rows
mod Guards
pub mod Idempotence
pub mod Verdict
pub mod Judged
pub mod Submission
pub mod Revision
pub mod Examples
unfoldable pub use Rows.*
unfoldable pub use Guards.*
use issue_pilot.Prelude.{ℕ, ◌+◌, String, Option, none, some, List, map, ◌==◌, if◌then◌else◌, take}
use issue_pilot.Prelude.Table.{find, filter, get, modify}
use issue_pilot.Status.{TaskStatus, Action, PlanStatus, decision_is_pending, decision_is_applied}
use issue_pilot.Schemas.{
  PlanningDecisionCreate, PlanningEvidenceBundle, RequirementAnalysisDraft, ImplementationPlanDraft,
}
use issue_pilot.Result.{
  Result, ok, require, planning_conflict, decision_not_found, idempotency_key_conflict, ◌>>=◌, ◌>>◌,
}
use issue_pilot.Db.{
  Db, Task, task_key, plan_key, decision_key, insert_planning_run, insert_analysis, insert_plan,
  insert_decision,
}
use issue_pilot.Transaction.{Body, some_or}

unfoldable pub persist_planning :
    (run_id plan_id : ℕ)
    → PlanningEvidenceBundle
    → RequirementAnalysisDraft
    → ImplementationPlanDraft
    → (provider model graph_version : String) → Body ℕ
persist_planning run_id plan_id bundle analysis plan provider model graph_version db = do
  require_current_context bundle db
  runs ←
      insert_planning_run (planning_run run_id bundle provider model graph_version) db.planning_runs
  analyses ← insert_analysis (record { run_id = run_id; draft = analysis }) db.analyses
  plans ← insert_plan (plan_record plan_id run_id plan) db.plans
  ok (
    run_id,
    record db {
      planning_runs = runs;
      analyses = analyses;
      plans = plans;
      tasks = modify task_key bundle.task_id (mark TaskStatus.waiting_approval none none) db.tasks;
    },
  )

-- The part of `create_decision` below the test for an earlier decision with the same key.
unfoldable pub submit_decision :
    ℕ → ℕ → PlanningDecisionCreate → Task → Body PlanningDecisionResponse
submit_decision decision_id t payload task db = do
  (run, plan) ← lock_current_plan t db
  require_submittable task plan payload.expected_plan_version
  decisions ← insert_decision (new_decision decision_id t payload run plan) db.decisions
  ok (
    decision_response (new_decision decision_id t payload run plan) TaskStatus.decision_pending,
    record db {
      decisions = decisions;
      tasks = modify task_key t (mark_status TaskStatus.decision_pending) db.tasks;
    },
  )

unfoldable pub create_decision :
    (decision_id t : ℕ) → PlanningDecisionCreate → Body PlanningDecisionResponse
create_decision decision_id t payload db = do
  task ← lock_task t db
  elim (decision_by_key t payload.idempotency_key db) [
    | none ↦ submit_decision decision_id t payload task db
    | some existing ↦ do
      require (same_decision existing payload) (planning_conflict idempotency_key_conflict)
      ok (decision_response existing task.status, db)
  ]

unfoldable pub apply_terminal_decision : (now d : ℕ) → Action → Body Unit
apply_terminal_decision now d action db = do
  (decision, task, plan) ← lock_decision d db
  if decision_is_applied decision.status then ok (tt, db) else do
    require_pending_action decision plan action
    ok (
      tt,
      record db {
        plans = modify plan_key plan.id (decide_plan (plan_verdict action) now) db.plans;
        decisions = modify decision_key d (apply_decision_row now) db.decisions;
        tasks = modify task_key task.id (mark (task_verdict action) none none) db.tasks;
      },
    )

-- The old plan is superseded and flushed before the new one is added.
unfoldable pub persist_revision :
    (plan_id now d : ℕ) → PlanningEvidenceBundle → ImplementationPlanDraft → String → Body ℕ
persist_revision plan_id now d bundle draft feedback db = do
  (decision, task, previous) ← lock_decision d db
  require_pending_action decision previous Action.request_changes
  run ← run_matches bundle (find (λ r. r.id == decision.run_id) db.planning_runs)
  let superseded = modify plan_key previous.id (decide_plan PlanStatus.superseded now) db.plans
  plans ←
      insert_plan (revision_record plan_id run.id previous.id (previous.version + 1) draft feedback)
        superseded
  ok (
    previous.version + 1,
    record db {
      plans = plans;
      decisions = modify decision_key d (apply_decision_row now) db.decisions;
      tasks = modify task_key task.id (mark TaskStatus.waiting_approval none none) db.tasks;
    },
  )

unfoldable pub fail_decision : (d : ℕ) → TaskStatus → (code message : String) → Body Unit
fail_decision d task_status code message db = do
  (decision, task, plan) ← lock_decision d db
  if decision_is_pending decision.status
      then ok (
        tt,
        record db {
          decisions = modify decision_key d (fail_decision_row code message) db.decisions;
          tasks = modify task_key task.id (mark task_status (some code) (some message)) db.tasks;
        },
      )
      else ok (tt, db)

unfoldable pub set_status : (t : ℕ) → TaskStatus → (code message : Option String) → Body Unit
set_status t status code message db = do
  task ← lock_task t db
  ok (tt, record db { tasks = modify task_key t (mark status code message) db.tasks })

unfoldable pub load_decision : (d : ℕ) → Db → Result PlanningDecisionResponse
load_decision d db = do
  decision ← some_or (planning_conflict decision_not_found) (get decision_key d db.decisions)
  task ← lock_task decision.task_id db
  ok (decision_response decision task.status)

unfoldable pub load_pending_decision_ids : ℕ → Db → List ℕ
load_pending_decision_ids limit db =
    take limit (map decision_key (filter (λ d. decision_is_pending d.status) db.decisions))

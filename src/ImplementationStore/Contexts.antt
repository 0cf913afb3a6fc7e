-- ===== src/ImplementationStore/Contexts.antt =====
-- The methods of SqlImplementationStore that only read
-- (backend/app/services/implementation_store.py). They commit without a change.
use issue_pilot.Prelude.{ℕ, Option, none, some, ◌==◌}
use issue_pilot.Prelude.Table.{find, get}
use issue_pilot.Result.{Result, ok, implementation_not_ready, ◌>>=◌}
use issue_pilot.Db.{
  Db, Task, RepositorySnapshot, CodeIndex, RetrievalRun, PlanningRun, ImplementationPlan,
  ImplementationRun, PatchArtifact, TestRun, run_key, test_key, patch_key, plan_key,
}
use issue_pilot.Transaction.{some_or}
use issue_pilot.PlanningStore.{lock_task}
use issue_pilot.ImplementationStore.Rows.{ImplementationResponse, response}
use issue_pilot.ImplementationStore.Guards.{impl_of_task}

pub record ImplementationContext : Type 0 where
  pub task : Task
  pub run : ImplementationRun
  pub plan : ImplementationPlan
  pub planning_run : PlanningRun
  pub snapshot : RepositorySnapshot
  pub code_index : CodeIndex
  pub retrieval_run : RetrievalRun

pub record TestContext : Type 0 where
  pub task : Task
  pub run : ImplementationRun
  pub patch : PatchArtifact
  pub test : TestRun

unfoldable pub load_context : (run_id : ℕ) → Db → Result ImplementationContext
load_context run_id db = do
  run ← some_or implementation_not_ready (get run_key run_id db.implementation_runs)
  task ← lock_task run.task_id db
  plan ← some_or implementation_not_ready (get plan_key run.plan_id db.plans)
  planning_run ←
      some_or implementation_not_ready (find (λ p. p.id == run.planning_run_id) db.planning_runs)
  snapshot ← some_or implementation_not_ready (find (λ s. s.task_id == run.task_id) db.snapshots)
  code_index ←
      some_or implementation_not_ready (find (λ i. i.task_id == run.task_id) db.code_indexes)
  retrieval_run ←
      some_or implementation_not_ready (find (λ r. r.task_id == run.task_id) db.retrieval_runs)
  ok (record {
    task = task;
    run = run;
    plan = plan;
    planning_run = planning_run;
    snapshot = snapshot;
    code_index = code_index;
    retrieval_run = retrieval_run;
  })

unfoldable pub load_test_context : (test_id : ℕ) → Db → Result TestContext
load_test_context test_id db = do
  test ← some_or implementation_not_ready (get test_key test_id db.tests)
  run ←
      some_or implementation_not_ready
        (get run_key test.implementation_run_id db.implementation_runs)
  patch ← some_or implementation_not_ready (get patch_key test.implementation_run_id db.patches)
  task ← lock_task run.task_id db
  ok (record { task = task; run = run; patch = patch; test = test })

-- `none` for a task without a run
unfoldable pub load_response : (t : ℕ) → Db → Result (Option ImplementationResponse)
load_response t db = do
  task ← lock_task t db
  elim (find (impl_of_task t) db.implementation_runs) [
    | none ↦ ok none
    | some run ↦ ok (some (response run db))
  ]

unfoldable pub load_response_by_run : (run_id : ℕ) → Db → Result ImplementationResponse
load_response_by_run run_id db = do
  run ← some_or implementation_not_ready (get run_key run_id db.implementation_runs)
  task ← lock_task run.task_id db
  ok (response run db)

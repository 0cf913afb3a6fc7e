-- ===== src/ImplementationStore/Guards.antt =====
-- The lookups that the methods of SqlImplementationStore begin with
-- (backend/app/services/implementation_store.py).
use issue_pilot.Prelude.{ℕ, Option, none, some, Bool, ◌&&◌, ◌==◌, if◌then◌else◌}
use issue_pilot.Prelude.Table.{find, get}
use issue_pilot.Status.{is_patch_ready, plan_is_approved, run_is_patch_ready}
use issue_pilot.Result.{
  Result, ok, err, implementation_not_ready, implementation_conflict, implementation_not_approved,
  patch_not_ready, ◌>>=◌,
}
use issue_pilot.Db.{
  Db, Task, PlanningRun, ImplementationPlan, ImplementationRun, PatchArtifact, TestRun, run_key,
  test_key,
}
use issue_pilot.Transaction.{some_or}
use issue_pilot.PlanningStore.{lock_task, run_of_task}

abbrev pub impl_of_task : ℕ → ImplementationRun → Bool
impl_of_task t r = r.task_id == t

abbrev pub approved_of : ℕ → ImplementationPlan → Bool
approved_of run p = p.run_id == run && plan_is_approved p.status

-- The join on run_id. A task has one planning run (uq_planning_runs_task).
unfoldable pub approved_plan : ℕ → Db → Result (PlanningRun × ImplementationPlan)
approved_plan t db = do
  run ←
      some_or (implementation_conflict implementation_not_approved)
        (find (run_of_task t) db.planning_runs)
  plan ←
      some_or (implementation_conflict implementation_not_approved)
        (find (approved_of run.id) db.plans)
  ok (run, plan)

-- The row is read twice, before and under the lock; within one transaction body both reads agree.
unfoldable pub lock_run_and_task : ℕ → Db → Result (ImplementationRun × Task)
lock_run_and_task run_id db = do
  run ← some_or implementation_not_ready (get run_key run_id db.implementation_runs)
  task ← lock_task run.task_id db
  ok (run, task)

unfoldable pub lock_test_run_task : ℕ → Db → Result (TestRun × ImplementationRun × Task)
lock_test_run_task test_id db = do
  test ← some_or implementation_not_ready (get test_key test_id db.tests)
  (run, task) ← lock_run_and_task test.implementation_run_id db
  ok (test, run, task)

abbrev pub run_key_of : ℕ → ℕ → ImplementationRun → Bool
run_key_of t key r = r.task_id == t && r.idempotency_key == key

abbrev pub test_key_of : ℕ → ℕ → TestRun → Bool
test_key_of run key x = x.implementation_run_id == run && x.idempotency_key == key

-- `task.status != PATCH_READY or run.status != "patch_ready" or patch is None`
abbrev pub ready_patch : Task → ImplementationRun → Option PatchArtifact → Result PatchArtifact
ready_patch task run none = err (implementation_conflict patch_not_ready)
ready_patch task run (some patch) =
    if is_patch_ready task.status && run_is_patch_ready run.status
    then ok patch
    else err (implementation_conflict patch_not_ready)

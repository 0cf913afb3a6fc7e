-- ===== src/ImplementationStore/Verdict.antt =====
-- On `persist_test_result` of backend/app/services/implementation_store.py.
use issue_pilot.Prelude.{ℕ, ◌≡◌, ◌↔◌, some, true, false, if◌then◌else◌}
use issue_pilot.Prelude.Table.{get}
use issue_pilot.Status.{TaskStatus, RunStatus}
use issue_pilot.Schemas.{TestExecutionResult, pos}
use issue_pilot.Db.{Db, Task, ImplementationRun, TestRun, task_key, run_key, test_key}
use issue_pilot.PlanningStore.{mark_status}
use issue_pilot.ImplementationStore.{run_status_row, finished_row, test_passed}

-- The three rows that a test result is about.
pub record LockedTest (x : ℕ) (db : Db) (test : TestRun) (run : ImplementationRun) (task : Task)
    : Type 0 where
  pub test_row : get test_key x db.tests ≡ some test
  pub run_row : get run_key test.implementation_run_id db.implementation_runs ≡ some run
  pub task_row : get task_key run.task_id db.tasks ≡ some task

-- The test run holds the result; the run and the task are tested if the exit code is 0 and the time
-- was enough, and test_failed otherwise.
pub record Recorded (now x : ℕ) (result : TestExecutionResult) (db : Db) (test : TestRun)
    (run : ImplementationRun) (task : Task) : Type 0 where
  pub verdict :
      (test_passed result ≡ true) ↔ ((result.exit_code ≡ some (pos 0)) × (result.timed_out ≡ false))
  pub test_row : get test_key x db.tests ≡ some (finished_row now result test)
  pub run_row :
      get run_key test.implementation_run_id db.implementation_runs
      ≡ some (
          run_status_row
            (if test_passed result then RunStatus.tested else RunStatus.test_failed)
            run)
  pub task_row :
      get task_key run.task_id db.tasks
      ≡ some (
          mark_status
            (if test_passed result then TaskStatus.tested else TaskStatus.test_failed)
            task)

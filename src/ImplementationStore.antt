-- ===== src/ImplementationStore.antt =====
-- SqlImplementationStore of backend/app/services/implementation_store.py. Each method that writes
-- is the body of a transaction; a fresh id and the time come as arguments. A response carries the
-- rows that the API schema copies out.
mod Rows
mod Guards
mod Contexts
pub mod Verdict
pub mod Idempotence
mod Examples
unfoldable pub use Rows.*
unfoldable pub use Guards.*
unfoldable pub use Contexts.*
use issue_pilot.Prelude.{
  ℕ, ◌-◌, String, none, some, List, ◌++◌, map, Bool, not, ◌&&◌, ◌==◌, if◌then◌else◌, length, take,
}
use issue_pilot.Prelude.Table.{find, filter, exists, get, modify}
use issue_pilot.Status.{
  TaskStatus, RunStatus, is_approved, plan_is_approved, run_can_generate, run_is_generating,
  run_is_test_pending, run_is_finished, test_is_pending, test_is_running, test_is_finished,
}
use issue_pilot.Schemas.{
  ImplementationCreate, TestRunCreate, PatchArtifactDraft, TestExecutionResult,
}
use issue_pilot.Result.{
  ok, require, implementation_not_ready, implementation_conflict, plan_version_conflict,
  implementation_request_mismatch, implementation_already_exists, implementation_not_approved,
  implementation_state_conflict, patch_state_conflict, patch_version_conflict,
  test_request_mismatch, test_already_exists, test_state_conflict, ◌>>=◌, ◌>>◌,
}
use issue_pilot.Db.{
  Db, Task, ImplementationRun, TestRun, task_key, run_key, patch_key, test_key,
  insert_implementation_run, insert_patch, insert_test,
}
use issue_pilot.Transaction.{Body, some_or}
use issue_pilot.PlanningStore.{lock_task, mark, mark_status}

-- The part of `_create_run_transaction` below the test for a run with the same key.
unfoldable pub start_run :
    (run_id t : ℕ)
    → ImplementationCreate
    → (provider model : String) → Task
    → Body ImplementationResponse
start_run run_id t payload provider model task db = do
  require (not (exists (impl_of_task t) db.implementation_runs))
      (implementation_conflict implementation_already_exists)
  (planning_run, plan) ← approved_plan t db
  require (is_approved task.status && plan_is_approved plan.status)
      (implementation_conflict implementation_not_approved)
  require (plan.version == payload.expected_plan_version)
      (implementation_conflict plan_version_conflict)
  let run = new_implementation_run run_id t payload planning_run plan provider model
  runs ← insert_implementation_run run db.implementation_runs
  let after = record db {
    implementation_runs = runs;
    tasks = modify task_key t (mark TaskStatus.implementation_pending none none) db.tasks;
  }
  ok (response run after, after)

unfoldable pub create_run :
    (run_id t : ℕ) → ImplementationCreate → (provider model : String) → Body ImplementationResponse
create_run run_id t payload provider model db = do
  task ← lock_task t db
  elim (find (run_key_of t payload.idempotency_key) db.implementation_runs) [
    | none ↦ start_run run_id t payload provider model task db
    | some existing ↦ do
      require (existing.plan_version == payload.expected_plan_version)
          (implementation_conflict implementation_request_mismatch)
      ok (response existing db, db)
  ]

unfoldable pub set_generating : (run_id : ℕ) → (worktree_relpath : String) → Body Unit
set_generating run_id worktree_relpath db = do
  (run, task) ← lock_run_and_task run_id db
  require (run_can_generate run.status) (implementation_conflict implementation_state_conflict)
  ok (
    tt,
    record db {
      implementation_runs =
          modify run_key run_id (generating_row worktree_relpath) db.implementation_runs;
      tasks = modify task_key task.id (mark_status TaskStatus.generating_patch) db.tasks;
    },
  )

-- The part of `persist_patch` for a run with no stored patch.
unfoldable pub store_patch : ℕ → PatchArtifactDraft → ImplementationRun → Task → Body ℕ
store_patch run_id draft run task db = do
  require (run_is_generating run.status) (implementation_conflict implementation_state_conflict)
  patches ← insert_patch (patch_artifact run_id draft) db.patches
  ok (
    draft.diff_sha256,
    record db {
      patches = patches;
      implementation_runs =
          modify run_key run_id (run_status_row RunStatus.patch_ready) db.implementation_runs;
      tasks = modify task_key task.id (mark_status TaskStatus.patch_ready) db.tasks;
    },
  )

unfoldable pub persist_patch : (run_id : ℕ) → PatchArtifactDraft → Body ℕ
persist_patch run_id draft db = do
  (run, task) ← lock_run_and_task run_id db
  elim (get patch_key run_id db.patches) [
    | none ↦ store_patch run_id draft run task db
    | some existing ↦ do
      require (existing.diff_sha256 == draft.diff_sha256)
          (implementation_conflict patch_state_conflict)
      ok (existing.diff_sha256, db)
  ]

-- The part of `_create_test_transaction` below the test for a test run with the same key.
unfoldable pub start_test :
    (test_id : ℕ)
    → TestRunCreate
    → (runner_image : String) → ImplementationRun
    → Task
    → Body ImplementationResponse
start_test test_id payload runner_image run task db = do
  require (not (exists (test_of_run run.id) db.tests)) (implementation_conflict test_already_exists)
  patch ← ready_patch task run (get patch_key run.id db.patches)
  require (patch.diff_sha256 == payload.expected_patch_sha256)
      (implementation_conflict patch_version_conflict)
  tests ← insert_test (new_test_run test_id run.id payload patch runner_image) db.tests
  let after = record db {
    tests = tests;
    implementation_runs =
        modify run_key run.id (run_status_row RunStatus.test_pending) db.implementation_runs;
    tasks = modify task_key task.id (mark_status TaskStatus.test_pending) db.tasks;
  }
  ok (response (run_status_row RunStatus.test_pending run) after, after)

unfoldable pub create_test :
    (test_id t : ℕ) → TestRunCreate → (runner_image : String) → Body ImplementationResponse
create_test test_id t payload runner_image db = do
  task ← lock_task t db
  run ← some_or implementation_not_ready (find (impl_of_task t) db.implementation_runs)
  elim (find (test_key_of run.id payload.idempotency_key) db.tests) [
    | none ↦ start_test test_id payload runner_image run task db
    | some existing ↦ do
      require (existing.expected_patch_sha256 == payload.expected_patch_sha256)
          (implementation_conflict test_request_mismatch)
      ok (response run db, db)
  ]

unfoldable pub mark_testing : (test_id : ℕ) → Body Unit
mark_testing test_id db = do
  (test, run, task) ← lock_test_run_task test_id db
  if test_is_running test.status then ok (tt, db) else do
    require (test_is_pending test.status && run_is_test_pending run.status)
        (implementation_conflict test_state_conflict)
    ok (
      tt,
      record db {
        tests = modify test_key test_id running_row db.tests;
        implementation_runs =
            modify run_key run.id (run_status_row RunStatus.testing) db.implementation_runs;
        tasks = modify task_key task.id (mark_status TaskStatus.testing) db.tasks;
      },
    )

unfoldable pub persist_test_result : (now test_id : ℕ) → TestExecutionResult → Body Unit
persist_test_result now test_id result db = do
  (test, run, task) ← lock_test_run_task test_id db
  if test_is_finished test.status then ok (tt, db) else do
    require (test_is_running test.status) (implementation_conflict test_state_conflict)
    ok (
      tt,
      record db {
        tests = modify test_key test_id (finished_row now result) db.tests;
        implementation_runs =
            modify run_key run.id
              (run_status_row
                (if test_passed result then RunStatus.tested else RunStatus.test_failed))
              db.implementation_runs;
        tasks =
            modify task_key task.id
              (mark_status
                (if test_passed result then TaskStatus.tested else TaskStatus.test_failed))
              db.tasks;
      },
    )

unfoldable pub fail : (run_id : ℕ) → (code message : String) → (recovery_blocked : Bool) → Body Unit
fail run_id code message recovery_blocked db = do
  (run, task) ← lock_run_and_task run_id db
  if run_is_finished run.status
      then ok (tt, db)
      else ok (
        tt,
        record db {
          implementation_runs =
              modify run_key run_id (fail_row recovery_blocked code message) db.implementation_runs;
          tasks =
              modify task_key task.id
                (mark (if recovery_blocked then TaskStatus.recovery_blocked else TaskStatus.failed)
                  (some code) (some message))
                db.tasks;
        },
      )

pub data WorkItem : Type 0 where
  implementation_work test_work : ℕ → WorkItem

abbrev pub run_is_open : ImplementationRun → Bool
run_is_open r = run_can_generate r.status

-- status in ["pending", "running"]
abbrev pub test_is_open : TestRun → Bool
test_is_open x = not (test_is_finished x.status)

unfoldable pub pending_work : ℕ → Db → List WorkItem
pending_work limit db =
    let run_ids = take limit (map run_key (filter run_is_open db.implementation_runs)) in
    let test_ids = take (limit - length run_ids) (map test_key (filter test_is_open db.tests)) in
    map implementation_work run_ids ++ map test_work test_ids

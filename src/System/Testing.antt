-- ===== src/System/Testing.antt =====
-- The methods of SqlImplementationStore from the test request on, against the invariant of the
-- workflow.
use issue_pilot.Prelude.{
  ℕ, ◌≡◌, refl, some, String, Bool, false, not, ◌&&◌, ◌==◌, if◌then◌else◌, arith,
}
use issue_pilot.Prelude.Table.{exists, get, find, find_sound}
use issue_pilot.Status.{
  TaskStatus, RunStatus, is_waiting_approval, run_is_test_pending, run_is_finished, test_is_pending,
  test_is_running, test_is_finished,
}
use issue_pilot.Schemas.{TestRunCreate, TestExecutionResult}
use issue_pilot.Result.{
  require, task_not_found, implementation_not_ready, implementation_conflict, test_request_mismatch,
  test_already_exists, patch_version_conflict, test_state_conflict,
}
use issue_pilot.Db.{Db, Task, ImplementationRun, task_key, patch_key, insert_test}
use issue_pilot.Transaction.{Ends, Ends-ok, Ends-bind, Ends-if, Ends-option, some_or, some_or-ok}
use issue_pilot.PlanningStore.{mark, mark_status, lock_task}
use issue_pilot.ImplementationStore.{
  lock_run_and_task, lock_test_run_task, impl_of_task, test_key_of, test_of_run, run_status_row,
  ready_patch, start_test, create_test, mark_testing, test_passed, persist_test_result, fail_row,
  fail,
}
use issue_pilot.System.Invariant.{IsSound}
use issue_pilot.System.Implementing.{run_mark, lock_run_and_task-ok, lock_test_run_task-ok}

start_test-IsSound :
    (x t : ℕ) (payload : TestRunCreate) (image : String) (run : ImplementationRun) (task : Task)
    (db : Db)
    → find (impl_of_task t) db.implementation_runs ≡ some run
    → task.id ≡ run.task_id
    → IsSound db
    → Ends IsSound (start_test x payload image run task db)
unfolding start_test is_waiting_approval
start_test-IsSound x t payload image run task db found same h =
    Ends-bind
      (require (not (exists (test_of_run run.id) db.tests))
        (implementation_conflict test_already_exists))
      _
      λ _ _. Ends-bind (ready_patch task run (get patch_key run.id db.patches)) _ λ patch _.
        Ends-bind
          (require (patch.diff_sha256 == payload.expected_patch_sha256)
            (implementation_conflict patch_version_conflict))
          _
          λ _ _. Ends-bind (insert_test _ _) _ λ tests _. Ends-ok _ _ (
            run_mark db _ run task.id h found same run.id (run_status_row RunStatus.test_pending)
              (mark_status TaskStatus.test_pending) (λ x. refl) (λ y. refl) (λ y. refl))

own_task :
    (t : ℕ) (db : Db) (task : Task) (run : ImplementationRun)
    → get task_key t db.tasks ≡ some task
    → find (impl_of_task t) db.implementation_runs ≡ some run
    → task.id ≡ run.task_id
own_task t db task run at_t found = ground (
  arith,
  find_sound (λ (y : Task). y.id == t) db.tasks task,
  find_sound (impl_of_task t) db.implementation_runs run,
)

pub create_test-IsSound :
    (x t : ℕ) (payload : TestRunCreate) (image : String) (db : Db)
    → IsSound db
    → Ends IsSound (create_test x t payload image db)
unfolding create_test
create_test-IsSound x t payload image db h = Ends-bind (lock_task t db) _ λ task at_t.
    Ends-bind (some_or implementation_not_ready (find (impl_of_task t) db.implementation_runs)) _
      λ run found.
        Ends-option (find (test_key_of run.id payload.idempotency_key) db.tests) _ _
          (λ _.
            start_test-IsSound x t payload image run task db
              (some_or-ok implementation_not_ready _ run found)
              (own_task t db task run (some_or-ok task_not_found _ task at_t)
                (some_or-ok implementation_not_ready _ run found))
              h)
          λ existing _.
            Ends-bind
              (require (existing.expected_patch_sha256 == payload.expected_patch_sha256)
                (implementation_conflict test_request_mismatch))
              _ λ _ _. Ends-ok _ _ h

pub mark_testing-IsSound : (x : ℕ) (db : Db) → IsSound db → Ends IsSound (mark_testing x db)
unfolding mark_testing is_waiting_approval
mark_testing-IsSound x db h = Ends-bind (lock_test_run_task x db) _ λ (test, run, task) locked.
    Ends-if (test_is_running test.status) _ _ (λ _. Ends-ok _ _ h)
      λ _.
        Ends-bind
          (require (test_is_pending test.status && run_is_test_pending run.status)
            (implementation_conflict test_state_conflict))
          _
          λ _ _.
            let (found, same) =
              lock_run_and_task-ok _ db run task
                (lock_test_run_task-ok x db test run task locked) in
            Ends-ok _ _ (
              run_mark db _ run task.id h found same run.id (run_status_row RunStatus.testing)
                (mark_status TaskStatus.testing) (λ x. refl) (λ y. refl) (λ y. refl))

verdict_busy :
    (b : Bool)
    → is_waiting_approval (if b then TaskStatus.tested else TaskStatus.test_failed) ≡ false
unfolding is_waiting_approval
verdict_busy b = ground arith

pub persist_test_result-IsSound :
    (now x : ℕ) (result : TestExecutionResult) (db : Db)
    → IsSound db
    → Ends IsSound (persist_test_result now x result db)
unfolding persist_test_result
persist_test_result-IsSound now x result db h =
    Ends-bind (lock_test_run_task x db) _ λ (test, run, task) locked.
      Ends-if (test_is_finished test.status) _ _ (λ _. Ends-ok _ _ h)
        λ _.
          Ends-bind
            (require (test_is_running test.status) (implementation_conflict test_state_conflict)) _
            λ _ _.
              let (found, same) =
                lock_run_and_task-ok _ db run task
                  (lock_test_run_task-ok x db test run task locked) in
              Ends-ok _ _ (
                run_mark db _ run task.id h found same run.id
                  (run_status_row
                    (if test_passed result then RunStatus.tested else RunStatus.test_failed))
                  (mark_status
                    (if test_passed result then TaskStatus.tested else TaskStatus.test_failed))
                  (λ x. refl) (λ y. refl) (λ y. verdict_busy (test_passed result)))

blocked_busy :
    (b : Bool)
    → is_waiting_approval (if b then TaskStatus.recovery_blocked else TaskStatus.failed) ≡ false
unfolding is_waiting_approval
blocked_busy b = ground arith

pub fail-IsSound :
    (r : ℕ) (code message : String) (blocked : Bool) (db : Db)
    → IsSound db
    → Ends IsSound (fail r code message blocked db)
unfolding fail
fail-IsSound r code message blocked db h =
    Ends-bind (lock_run_and_task r db) _ λ (run, task) locked.
      Ends-if (run_is_finished run.status) _ _ (λ _. Ends-ok _ _ h)
        λ _.
          let (found, same) = lock_run_and_task-ok r db run task locked in
          Ends-ok _ _ (
            run_mark db _ run task.id h found same r (fail_row blocked code message)
              (mark (if blocked then TaskStatus.recovery_blocked else TaskStatus.failed) (some code)
                (some message))
              (λ x. refl) (λ y. refl) (λ y. blocked_busy blocked))

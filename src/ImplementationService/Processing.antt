-- ===== src/ImplementationService/Processing.antt =====
-- `process_implementation` and `process_test` of backend/app/services/implementation_service.py. What
-- the graph does before it returns or raises is an argument: a step on the database.
pub mod Reports
pub mod Recorded
mod Examples
use issue_pilot.Prelude.{ℕ, String, Option, none, some, Bool, true, false, if◌then◌else◌}
use issue_pilot.Status.{test_is_running, test_is_finished}
use issue_pilot.Result.{Result, ok, err, database_unavailable}
use issue_pilot.Db.{Db}
use issue_pilot.Transaction.{transaction}
use issue_pilot.ImplementationStore.{TestContext, load_test_context, fail}
use issue_pilot.ImplementationService.Failures.{
  ServiceError, Service, FailureCode, done, failed, from_store, code_text, failure_message,
  failure_code, is_inconsistency, is_test_inconsistency, is_outage, workspace_is_inconsistent,
  test_runner_unavailable, store_error,
}

abbrev pub Action : Type 0
Action = Db → Service (Unit {0}) × Db

-- `await self._store.fail(...)`, a transaction that the database may fail.
unfoldable pub record_failure :
    (fault : Bool) → (run_id : ℕ) → (code message : String) → (recovery_blocked : Bool) → Action
record_failure fault run_id code message recovery_blocked db =
    let after = transaction fault (fail run_id code message recovery_blocked) db in
    (from_store after.0, after.1)

-- The `except` clauses, with the test of the first.
unfoldable pub handle :
    (is_first : ServiceError → Bool)
    → (fault : Bool) → (run_id : ℕ) → Service (Unit {0}) × Db
    → Service (Unit {0}) × Db
handle is_first fault run_id (done _, db) = (done tt, db)
handle is_first fault run_id (failed error, db) =
    if is_first error
    then record_failure fault run_id (code_text workspace_is_inconsistent)
        (failure_message workspace_is_inconsistent) true db
    else if is_outage error
    then (failed error, db)
    else record_failure fault run_id (code_text (failure_code error))
        (failure_message (failure_code error)) false db

unfoldable pub process_implementation :
    (invoke_initial : Action) → (fault : Bool) → (run_id : ℕ) → Action
process_implementation invoke_initial fault run_id db =
    handle is_inconsistency fault run_id (invoke_initial db)

abbrev pub abandon_code : (cleaned : Bool) → FailureCode
abandon_code cleaned = if cleaned then workspace_is_inconsistent else test_runner_unavailable

abbrev pub abandon_message : (cleaned : Bool) → String
abandon_message cleaned = if cleaned then "测试曾开始但缺少可证明的完成证据" else "遗留测试容器无法确认已经停止"

-- A test that was started before: its container is removed, and it is not started again. An
-- exception of `cleanup` is a TestRunnerUnavailableError.
unfoldable pub abandon_test : (cleaned : Bool) → (fault : Bool) → (run_id : ℕ) → Action
abandon_test cleaned fault run_id =
    record_failure fault run_id (code_text (abandon_code cleaned)) (abandon_message cleaned) true

unfoldable pub process_loaded_test :
    (resume_test : (run_id patch_sha256 : ℕ) → Action)
    → (cleaned fault : Bool) → Result TestContext
    → Action
process_loaded_test resume_test cleaned fault (err error) db = (failed (store_error error), db)
process_loaded_test resume_test cleaned fault (ok context) db =
    if test_is_finished context.test.status
    then (done tt, db)
    else if test_is_running context.test.status
    then abandon_test cleaned fault context.run.id db
    else handle is_test_inconsistency fault context.run.id
        (resume_test context.run.id context.patch.diff_sha256 db)

-- `load_fault` is a database fault while the context is loaded.
unfoldable pub process_test :
    (resume_test : (run_id patch_sha256 : ℕ) → Action)
    → (cleaned load_fault fault : Bool) → (test_id : ℕ) → Action
process_test resume_test cleaned load_fault fault test_id db =
    process_loaded_test resume_test cleaned fault
      (if load_fault then err database_unavailable else load_test_context test_id db) db

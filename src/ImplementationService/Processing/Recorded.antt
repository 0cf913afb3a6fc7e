-- ===== src/ImplementationService/Processing/Recorded.antt =====
-- On what process_implementation and process_test of
-- backend/app/services/implementation_service.py record of an exception.
use issue_pilot.Prelude.{
  ◌≡◌, refl, subst, Option, none, some, Bool, true, false, if◌then◌else◌, Bool-cases, inl, inr,
}
use issue_pilot.Prelude.Table.{get, get-modify_self}
use issue_pilot.Status.{RunStatus, TestStatus, run_is_finished}
use issue_pilot.Result.{Error, ok}
use issue_pilot.Db.{Db, Task, ImplementationRun, task_key, run_key}
use issue_pilot.Transaction.{transaction}
use issue_pilot.ImplementationStore.{fail, lock_run_and_task}
use issue_pilot.ImplementationService.Failures.{
  ServiceError, Service, done, failed, code_text, failure_message, failure_code, is_inconsistency,
  is_outage, workspace_is_inconsistent, store_error,
}
use issue_pilot.ImplementationService.Processing.Reports.{
  Report, has_ended, failed_run, failed_task, initial_reports, test_reports, abandoned_report,
}
use issue_pilot.ImplementationService.Processing.{
  Action, record_failure, handle, process_implementation,
}

-- The processing returns, and the run and its task hold the failure unless the run was finished.
pub record Recorded (run : ImplementationRun) (task : Task) (report : Report)
    (r : Service (Unit {0}) × Db) : Type 0 where
  pub returned : r.0 ≡ done tt
  pub run_row :
      get run_key run.id r.1.implementation_runs
      ≡ some (if has_ended run.status then run else failed_run report run)
  pub task_row :
      get task_key task.id r.1.tasks
      ≡ some (if has_ended run.status then task else failed_task report task)

-- The rows that a failure is recorded in.
pub record HasRun (run : ImplementationRun) (task : Task) (db : Db) : Type 0 where
  pub run_row : get run_key run.id db.implementation_runs ≡ some run
  pub task_row : get task_key task.id db.tasks ≡ some task
  pub of_task : run.task_id ≡ task.id

locked :
    (run : ImplementationRun) (task : Task) (db : Db)
    → HasRun run task db
    → lock_run_and_task run.id db ≡ ok (run, task)
unfolding lock_run_and_task
locked run task db h = rw (h.run_row, h.of_task, h.task_row) refl

run_is_finished_same : (s : RunStatus) → run_is_finished s ≡ has_ended s
unfolding run_is_finished
run_is_finished_same RunStatus.pending = refl
run_is_finished_same RunStatus.generating_patch = refl
run_is_finished_same RunStatus.patch_ready = refl
run_is_finished_same RunStatus.test_pending = refl
run_is_finished_same RunStatus.testing = refl
run_is_finished_same RunStatus.tested = refl
run_is_finished_same RunStatus.test_failed = refl
run_is_finished_same RunStatus.failed = refl
run_is_finished_same RunStatus.recovery_blocked = refl

record_failure-Recorded :
    (run : ImplementationRun) (task : Task) (report : Report) (db : Db)
    → HasRun run task db
    → Recorded run task report
        (record_failure false run.id report.code report.message report.blocked db)
unfolding record_failure transaction fail
record_failure-Recorded run task report db h =
    rw (locked run task db h, run_is_finished_same run.status)
      (elim (Bool-cases (has_ended run.status)) [
        | inl e ↦ record {
          returned = rw e refl;
          run_row = rw (e, h.run_row) refl;
          task_row = rw (e, h.task_row) refl;
        }
        | inr e ↦ record {
          returned = rw e refl;
          run_row = rw e (
              get-modify_self run_key run.id (failed_run report) db.implementation_runs run
                (λ x. refl) h.run_row);
          task_row = rw e (
              get-modify_self task_key task.id (failed_task report) db.tasks task (λ x. refl)
                h.task_row);
        }
      ])

-- What the processing does with an exception: it raises it again if it has no report.
abbrev pub Raised :
    Option Report
    → ImplementationRun
    → Task
    → ServiceError
    → Db
    → (result : Service (Unit {0}) × Db) → Type 0
Raised none run task error db result = result ≡ (failed error, db)
Raised (some report) run task error db result = Recorded run task report result

-- What it does with the outcome of the graph, under the reports of a handler.
abbrev pub Handled :
    (ServiceError → Option Report)
    → ImplementationRun
    → Task
    → (outcome result : Service (Unit {0}) × Db) → Type 0
Handled reports run task (done _, db) result = result ≡ (done tt, db)
Handled reports run task (failed error, db) result = Raised (reports error) run task error db result

-- What `handle` does with an exception, in its own terms.
abbrev report_of : (ServiceError → Bool) → ServiceError → Option Report
report_of is_first error =
    if is_first error
    then some (record {
      code = code_text workspace_is_inconsistent;
      message = failure_message workspace_is_inconsistent;
      blocked = true;
    })
    else if is_outage error
    then none
    else some (record {
      code = code_text (failure_code error);
      message = failure_message (failure_code error);
      blocked = false;
    })

choose-Raised :
    (is_first outage : Bool) (inconsistency other : Report) (run : ImplementationRun) (task : Task)
    (error : ServiceError) (db : Db)
    → HasRun run task db
    → Raised
        (if is_first then some inconsistency else if outage then none else some other)
        run
        task
        error
        db
        (if is_first
          then record_failure false run.id inconsistency.code inconsistency.message
              inconsistency.blocked db
          else if outage
          then (failed error, db)
          else record_failure false run.id other.code other.message other.blocked db)
choose-Raised true outage inconsistency other run task error db h =
    record_failure-Recorded run task inconsistency db h
choose-Raised false true inconsistency other run task error db h = refl
choose-Raised false false inconsistency other run task error db h =
    record_failure-Recorded run task other db h

handle-Handled :
    (is_first : ServiceError → Bool) (reports : ServiceError → Option Report)
    → ((error : ServiceError) → report_of is_first error ≡ reports error)
    → (run : ImplementationRun) (task : Task) (outcome : Service (Unit {0}) × Db)
    → HasRun run task outcome.1
    → Handled reports run task outcome (handle is_first false run.id outcome)
unfolding handle
handle-Handled is_first reports same run task (done _, db) h = refl
handle-Handled is_first reports same run task (failed error, db) h =
    subst (λ o. Raised o run task error db (handle is_first false run.id (failed error, db)))
      (same error) (choose-Raised (is_first error) (is_outage error) _ _ run task error db h)

store_reports :
    (e : Error) → report_of is_inconsistency (store_error e) ≡ initial_reports (store_error e)
unfolding is_inconsistency is_outage failure_code code_text failure_message
store_reports Error.database_unavailable = refl
store_reports Error.task_not_found = refl
store_reports Error.workspace_inconsistent = refl
store_reports Error.implementation_not_ready = refl
store_reports (Error.planning_conflict code) = refl
store_reports (Error.implementation_conflict code) = refl

reports_initially : (e : ServiceError) → report_of is_inconsistency e ≡ initial_reports e
unfolding is_inconsistency is_outage failure_code code_text failure_message
reports_initially ServiceError.scope_invalid = refl
reports_initially ServiceError.inconsistent = refl
reports_initially ServiceError.unsafe_workspace_path = refl
reports_initially ServiceError.source_changed = refl
reports_initially ServiceError.patch_validation = refl
reports_initially ServiceError.llm_invalid_response = refl
reports_initially ServiceError.llm_unavailable = refl
reports_initially ServiceError.runner_unavailable = refl
reports_initially ServiceError.checkpointer_unavailable = refl
reports_initially ServiceError.git_error = refl
reports_initially ServiceError.value_error = refl
reports_initially ServiceError.other_error = refl
reports_initially ServiceError.disabled = refl
reports_initially (ServiceError.store_error e) = store_reports e

-- If the run and its task exist when the graph ends, and the database takes the record, then
-- process_implementation returns if the graph returned, and raises an outage of the database or of
-- the checkpointer again. After any other exception it returns, and the run and the task hold
-- the report that the exception has in initial_reports, unless the run was finished.
pub process_implementation-Recorded :
    (invoke_initial : Action) (run : ImplementationRun) (task : Task) (before : Db)
    → HasRun run task (invoke_initial before).1
    → Handled initial_reports run task
        (invoke_initial before)
        (process_implementation invoke_initial false run.id before)
unfolding process_implementation
process_implementation-Recorded invoke_initial run task before h =
    handle-Handled is_inconsistency initial_reports reports_initially run task
      (invoke_initial before) h

-- What process_test does with a test of the status.
abbrev pub Processed :
    ImplementationRun
    → Task
    → (cleaned : Bool) (before : Db) → (resumed : Service (Unit {0}) × Db) → TestStatus
    → Service (Unit {0}) × Db
    → Type 0
Processed run task cleaned before resumed TestStatus.pending r =
    Handled test_reports run task resumed r
Processed run task cleaned before resumed TestStatus.running r =
    Recorded run task (abandoned_report cleaned) r
Processed run task cleaned before resumed TestStatus.passed r = r ≡ (done tt, before)
Processed run task cleaned before resumed TestStatus.failed r = r ≡ (done tt, before)

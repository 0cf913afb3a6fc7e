-- ===== src/ImplementationService/Processing/Examples.antt =====
-- The theorems on recorded exceptions, for the run of the example of `run_test`.
use issue_pilot.Prelude.{refl, false}
use issue_pilot.Prelude.Table.{find}
use issue_pilot.ImplementationStore.{TestContext}
use issue_pilot.ImplementationService.Failures.{ServiceError, failed, llm_unavailable}
use issue_pilot.ImplementationService.Processing.{Action, process_implementation}
use issue_pilot.ImplementationService.Processing.Reports.{initial_reports}
use issue_pilot.ImplementationService.Processing.Recorded.{
  HasRun, Handled, process_implementation-Recorded,
}
use issue_pilot.ImplementationService.Running.Examples.{run, task, test, patch, db}

abbrev raises : ServiceError → Action
raises error db = (failed error, db)

has_run : HasRun run task db
unfolding find
has_run = record { run_row = refl; task_row = refl; of_task = refl }

process_implementation-Recorded_example :
    Handled initial_reports run task
      (raises llm_unavailable db)
      (process_implementation (raises llm_unavailable) false run.id db)
process_implementation-Recorded_example =
    process_implementation-Recorded (raises llm_unavailable) run task db has_run

abbrev context : TestContext
context = record { task = task; run = run; patch = patch; test = test }

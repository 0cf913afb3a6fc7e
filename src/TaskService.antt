-- ===== src/TaskService.antt =====
-- TaskService of backend/app/services/task_service.py.
use issue_pilot.Prelude.{ℕ, String, Option, none, some, Bool, ◌==◌, if◌then◌else◌}
use issue_pilot.Prelude.Table.{get, modify}
use issue_pilot.Status.{TaskStatus}
use issue_pilot.Result.{Result, ok, task_not_found, ◌>>=◌}
use issue_pilot.Db.{Db, Task, task_key, insert}
use issue_pilot.Transaction.{Body, some_or}
use issue_pilot.PlanningStore.{mark}

unfoldable pub new_task : (t : ℕ) → (repository_url issue : String) → Task
new_task t repository_url issue = record {
  id = t;
  repository_url = repository_url;
  issue_text = issue;
  status = TaskStatus.created;
  failure_code = none;
  failure_message = none;
}

unfoldable pub create_task : (t : ℕ) → (repository_url issue : String) → Body ℕ
create_task t repository_url issue db = do
  tasks ← insert (λ x. x.id == t) (new_task t repository_url issue) db.tasks
  ok (t, record db { tasks = tasks })

unfoldable pub get_task : ℕ → Db → Result Task
get_task t db = some_or task_not_found (get task_key t db.tasks)

unfoldable pub set_task_status : (t : ℕ) → TaskStatus → (code message : Option String) → Body Unit
set_task_status t status code message db = do
  task ← get_task t db
  ok (tt, record db { tasks = modify task_key t (mark status code message) db.tasks })

-- UPDATE tasks … WHERE id = t AND status IN (…) RETURNING id; the set of expected statuses is a test.
unfoldable pub set_failure_if_status_in :
    (t : ℕ) → (expected : TaskStatus → Bool) → (code message : String) → Body Bool
set_failure_if_status_in t expected code message db = elim (get task_key t db.tasks) [
  | none ↦ ok (Bool.false, db)
  | some task ↦
      if expected task.status
      then ok (
        Bool.true,
        record db {
          tasks = modify task_key t (mark TaskStatus.failed (some code) (some message)) db.tasks;
        },
      )
      else ok (Bool.false, db)
]

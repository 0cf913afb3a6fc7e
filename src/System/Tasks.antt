-- ===== src/System/Tasks.antt =====
-- The methods of TaskService against the invariant of the workflow.
use issue_pilot.Prelude.{ℕ, ◌≡◌, refl, sym, subst, Option, some, String, Bool, true, ◌≤◌, arith}
use Prim.Native.Nat.{zero-le}
use native.Mathlib.Nat.{le_trans}
use issue_pilot.Prelude.Table.{get}
use issue_pilot.Status.{TaskStatus, is_waiting_approval}
use issue_pilot.Db.{Db, Task, task_key, insert, insert-ok}
use issue_pilot.Transaction.{Ends, Ends-ok, Ends-bind, Ends-if, Ends-option}
use issue_pilot.TaskService
use issue_pilot.PlanningStore.{mark}
use issue_pilot.System.{is_service_status}
use issue_pilot.System.Invariant.{Inv, IsSound, pending_slack, approvals_due, is_authorised}
use issue_pilot.System.Tables.{Inv-mark, Inv-task, slack-le_one}

-- A status that the services set asks for no approval and leaves room for a pending decision.
service_mark :
    (status : TaskStatus) (code message : Option String) (n m : ℕ) (y : Task)
    → is_service_status status ≡ true
    → n ≤ 1
    → (n ≤ pending_slack (some (mark status code message y)))
      × (approvals_due (some (mark status code message y)) ≤ m)
unfolding is_authorised is_waiting_approval
service_mark status code message n m y h one = ground arith

pub set_task_status-IsSound :
    (t : ℕ) (status : TaskStatus) (code message : Option String) (db : Db)
    → is_service_status status ≡ true
    → IsSound db
    → Ends IsSound (TaskService.set_task_status t status code message db)
unfolding TaskService.set_task_status
set_task_status-IsSound t status code message db s h =
    Ends-bind (TaskService.get_task t db) _ λ x found. Ends-ok _ _ (
      Inv-mark _ _ _ _ h t (mark status code message) (λ y. refl)
        λ y e.
          service_mark status code message _ _ y s (le_trans (h.pending_bound t) (slack-le_one _)))

pub set_failure_if_status_in-IsSound :
    (t : ℕ) (expected : TaskStatus → Bool) (code message : String) (db : Db)
    → IsSound db
    → Ends IsSound (TaskService.set_failure_if_status_in t expected code message db)
unfolding TaskService.set_failure_if_status_in
set_failure_if_status_in-IsSound t expected code message db h =
    Ends-option (get task_key t db.tasks) _ _ (λ _. Ends-ok _ _ h)
      λ x found.
        Ends-if (expected x.status) _ _
          (λ _. Ends-ok _ _ (
            Inv-mark _ _ _ _ h t (mark TaskStatus.failed (some code) (some message)) (λ y. refl)
              λ y e.
                service_mark TaskStatus.failed (some code) (some message) _ _ y refl
                  (le_trans (h.pending_bound t) (slack-le_one _))))
          λ _. Ends-ok _ _ h

pub create_task-IsSound :
    (t : ℕ) (repository_url issue : String) (db : Db)
    → IsSound db
    → Ends IsSound (TaskService.create_task t repository_url issue db)
unfolding TaskService.create_task TaskService.new_task is_waiting_approval is_authorised
create_task-IsSound t repository_url issue db h = Ends-bind (insert _ _ _) _ λ tasks inserted.
    Ends-ok _ _ (
      subst (λ ts. Inv ts db.planning_runs db.decisions db.implementation_runs)
        (sym (insert-ok _ _ _ tasks inserted).0)
        (Inv-task _ _ _ _ h (TaskService.new_task t repository_url issue)
          (le_trans (h.pending_bound t) (slack-le_one _)) zero-le))

-- ===== src/System/Invariant.antt =====
-- The invariant of the workflow: of its tables, between two transactions.
use issue_pilot.Prelude.{
  ℕ, ◌≤◌, ◌≡◌, Option, none, some, List, Bool, true, false, ◌&&◌, ◌==◌, if◌then◌else◌, All,
}
use issue_pilot.Prelude.Table.{count, exists, get}
use issue_pilot.Status.{
  TaskStatus, Action, is_waiting_approval, decision_is_pending, decision_is_applied, action_eq,
}
use issue_pilot.Db.{Db, Task, PlanningRun, PlanningDecision, ImplementationRun, task_key}
use issue_pilot.PlanningStore.{run_of_task}

-- A decision on this task that is not yet carried out.
abbrev pub pending_on : ℕ → PlanningDecision → Bool
pending_on t d = d.task_id == t && decision_is_pending d.status

-- A carried out approval of this task.
abbrev pub approval_of : ℕ → PlanningDecision → Bool
approval_of t d =
    d.task_id == t && (action_eq d.action Action.approve && decision_is_applied d.status)

-- How many pending decisions a task may have.
abbrev pub pending_slack : Option Task → ℕ
pending_slack none = 0
pending_slack (some task) = if is_waiting_approval task.status then 0 else 1

-- The statuses from the approval on.
unfoldable pub is_authorised : TaskStatus → Bool
is_authorised TaskStatus.approved = true
is_authorised TaskStatus.implementation_pending = true
is_authorised TaskStatus.generating_patch = true
is_authorised TaskStatus.patch_ready = true
is_authorised TaskStatus.test_pending = true
is_authorised TaskStatus.testing = true
is_authorised TaskStatus.tested = true
is_authorised TaskStatus.test_failed = true
is_authorised _ = false

-- How many approvals a task must have.
abbrev pub approvals_due : Option Task → ℕ
approvals_due none = 0
approvals_due (some task) = if is_authorised task.status then 1 else 0

pub record Inv (tasks : List Task) (runs : List PlanningRun) (decisions : List PlanningDecision)
    (impl_runs : List ImplementationRun) : Type 0 where
  pub pending_bound :
      (t : ℕ) → count (pending_on t) decisions ≤ pending_slack (get task_key t tasks)
  pub decided_planned : All (λ d. exists (run_of_task d.task_id) runs ≡ true) decisions
  pub status_approved :
      (t : ℕ) → approvals_due (get task_key t tasks) ≤ count (approval_of t) decisions
  pub runs_approved : All (λ r. 1 ≤ count (approval_of r.task_id) decisions) impl_runs

-- A task that awaits approval has no pending decision and any other task has at most one; a decision
-- belongs to a planned task; whatever is approved, or beyond, has an approval that was carried out.
abbrev pub IsSound : Db → Type 0
IsSound db = Inv db.tasks db.planning_runs db.decisions db.implementation_runs

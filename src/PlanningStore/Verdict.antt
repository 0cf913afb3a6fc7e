-- ===== src/PlanningStore/Verdict.antt =====
-- On `apply_terminal_decision` of backend/app/services/planning_store.py.
use issue_pilot.Prelude.{ℕ, ◌≡◌, refl, none, some, ◌==◌, true, arith}
use issue_pilot.Prelude.Table.{get, modify, get-modify_self, find_sound}
use issue_pilot.Status.{
  Action, PlanStatus, TaskStatus, DecisionStatus, decision_is_pending, decision_is_applied,
  action_eq, plan_is_proposed,
}
use issue_pilot.Result.{ok}
use issue_pilot.Db.{
  Db, Task, ImplementationPlan, PlanningDecision, task_key, plan_key, decision_key,
}
use issue_pilot.PlanningStore.{
  mark, lock_decision, require_pending_action, decide_plan, apply_decision_row, plan_verdict,
  task_verdict, apply_terminal_decision,
}

-- The three rows that a decision is about.
pub record Locked (d : ℕ) (db : Db) (x : PlanningDecision) (task : Task) (plan : ImplementationPlan)
    : Type 0 where
  pub decision_row : get decision_key d db.decisions ≡ some x
  pub task_row : get task_key x.task_id db.tasks ≡ some task
  pub plan_row : get plan_key x.plan_id db.plans ≡ some plan

-- The effect of a terminal decision that was pending: the decision is applied, the plan and the
-- task have the statuses, and the task's failure is cleared.
pub record Decided (now d : ℕ) (plan_status : PlanStatus) (task_status : TaskStatus) (db : Db)
    (x : PlanningDecision) (task : Task) (plan : ImplementationPlan) : Type 0 where
  pub decision_row :
      get decision_key d db.decisions
      ≡ some (record x { status = DecisionStatus.applied; applied_at = some now })
  pub task_row :
      get task_key x.task_id db.tasks
      ≡ some (record task { status = task_status; failure_code = none; failure_message = none })
  pub plan_row :
      get plan_key x.plan_id db.plans
      ≡ some (record plan { status = plan_status; decided_at = some now })

pub lock_decision-Locked :
    (d : ℕ) (db : Db) (x : PlanningDecision) (task : Task) (plan : ImplementationPlan)
    → Locked d db x task plan
    → lock_decision d db ≡ ok (x, task, plan)
unfolding lock_decision
lock_decision-Locked d db x task plan l = ground arith

-- A pending decision of this action on a proposed plan is applied.
pub apply_terminal_decision_lem :
    (now d : ℕ) (action : Action) (db : Db) (x : PlanningDecision) (task : Task)
    (plan : ImplementationPlan)
    → Locked d db x task plan
    → decision_is_pending x.status ≡ true
    → action_eq x.action action ≡ true
    → plan_is_proposed plan.status ≡ true
    → (db' : Db) × (apply_terminal_decision now d action db ≡ ok (tt, db'))
      × Decided now d (plan_verdict action) (task_verdict action) db' x task plan
unfolding apply_terminal_decision require_pending_action decision_is_applied decision_is_pending
apply_terminal_decision_lem now d action db x task plan l pending asked proposed = (
  record db {
    plans = modify plan_key plan.id (decide_plan (plan_verdict action) now) db.plans;
    decisions = modify decision_key d (apply_decision_row now) db.decisions;
    tasks = modify task_key task.id (mark (task_verdict action) none none) db.tasks;
  },
  ground (arith, lock_decision-Locked d db x task plan l),
  record {
    decision_row =
        get-modify_self decision_key d (apply_decision_row now) db.decisions x (λ y. refl)
          l.decision_row;
    task_row = ground (
      arith,
      find_sound (λ (y : Task). y.id == x.task_id) db.tasks task,
      get-modify_self task_key x.task_id (mark (task_verdict action) none none) db.tasks task
          (λ y. refl) l.task_row,
    );
    plan_row = ground (
      arith,
      find_sound (λ (y : ImplementationPlan). y.id == x.plan_id) db.plans plan,
      get-modify_self plan_key x.plan_id (decide_plan (plan_verdict action) now) db.plans plan
          (λ y. refl) l.plan_row,
    );
  },
)

-- Once a decision is applied, every further call for it returns without writing, whatever its
-- action and time.
pub apply_terminal_decision_again :
    (now d : ℕ) (action : Action) (db : Db) (x : PlanningDecision) (task : Task)
    (plan : ImplementationPlan)
    → Locked d db x task plan
    → decision_is_applied x.status ≡ true
    → apply_terminal_decision now d action db ≡ ok (tt, db)
unfolding apply_terminal_decision
apply_terminal_decision_again now d action db x task plan l applied =
    ground (arith, lock_decision-Locked d db x task plan l)

-- A terminal decision is applied once: for a pending decision of this action on a proposed plan the
-- first call succeeds, and a second call for the same decision, with any action and at any time,
-- succeeds and leaves the rows as the first left them.
pub apply_terminal_decision_once :
    (now later d : ℕ) (action other : Action) (db : Db) (x : PlanningDecision) (task : Task)
    (plan : ImplementationPlan)
    → Locked d db x task plan
    → decision_is_pending x.status ≡ true
    → action_eq x.action action ≡ true
    → plan_is_proposed plan.status ≡ true
    → (db' : Db) × (apply_terminal_decision now d action db ≡ ok (tt, db'))
      × (apply_terminal_decision later d other db' ≡ ok (tt, db'))
unfolding decision_is_applied
apply_terminal_decision_once now later d action other db x task plan l pending asked proposed =
    let (db', done, decided) =
      apply_terminal_decision_lem now d action db x task plan l pending asked proposed in
    (
      db',
      done,
      apply_terminal_decision_again later d other db' (apply_decision_row now x) _ _
          (record {
            decision_row = decided.decision_row;
            task_row = decided.task_row;
            plan_row = decided.plan_row;
          })
          refl,
    )

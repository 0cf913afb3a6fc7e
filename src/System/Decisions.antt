-- ===== src/System/Decisions.antt =====
-- The methods of SqlPlanningStore that write decisions, against the invariant of the workflow.
use issue_pilot.Prelude.{
  ℕ, ◌≡◌, refl, sym, subst, none, some, String, [], ◌∷◌, ◌++◌, true, ◌==◌, ==_refl, if◌then◌else◌,
  ◌≤◌, arith,
}
use Prim.Native.Nat.{zero-le}
use native.Mathlib.Nat.{le_trans}
use issue_pilot.Prelude.Table.{get, find, modify, get-modify, find_sound}
use issue_pilot.Status.{
  TaskStatus, Action, DecisionStatus, is_waiting_approval, decision_is_pending, decision_is_applied,
  action_eq,
}
use issue_pilot.Schemas.{PlanningDecisionCreate, PlanningEvidenceBundle, ImplementationPlanDraft}
use issue_pilot.Result.{ok, task_not_found, planning_conflict, idempotency_key_conflict, require}
use issue_pilot.Db.{
  Db, Task, PlanningRun, ImplementationPlan, PlanningDecision, task_key, decision_key, insert_plan,
  insert-ok, insert_decision,
}
use issue_pilot.Transaction.{Ends, Ends-ok, Ends-bind, Ends-if, Ends-option, some_or-ok}
use issue_pilot.PlanningStore
use issue_pilot.PlanningStore.{
  mark, lock_decision, require_pending_action, apply_decision_row, fail_decision_row,
  apply_terminal_decision, fail_decision, persist_revision, task_verdict, run_matches,
  lock_current_plan, require_submittable, submit_decision, create_decision, run_of_task,
  new_decision, mark_status, require_current_context, persist_planning, planning_run, lock_task,
  same_decision,
}
use issue_pilot.System.{is_failure_status, is_terminal}
use issue_pilot.System.Invariant.{Inv, IsSound, approval_of, is_authorised}
use issue_pilot.System.Tables.{Inv-mark, Inv-conclude, Inv-decide, slack-le_one}

-- What `lock_decision` has loaded.
lock_decision-ok :
    (d : ℕ) (db : Db) (x : PlanningDecision) (task : Task) (plan : ImplementationPlan)
    → lock_decision d db ≡ ok (x, task, plan)
    → (get decision_key d db.decisions ≡ some x)
      × (get task_key x.task_id db.tasks ≡ some task)
      × (task.id ≡ x.task_id)
unfolding lock_decision
lock_decision-ok d db x task plan h =
    ground (arith, find_sound (λ (r : Task). r.id == x.task_id) db.tasks task)

pending_action-ok :
    (x : PlanningDecision) (plan : ImplementationPlan) (action : Action) (u : Unit {0})
    → require_pending_action x plan action ≡ ok u
    → (decision_is_pending x.status ≡ true) × (action_eq x.action action ≡ true)
unfolding require_pending_action
pending_action-ok x plan action u h = ground arith

verdict_due :
    (now : ℕ) (x : PlanningDecision) (action : Action)
    → is_terminal action ≡ true
    → action_eq x.action action ≡ true
    → (if is_authorised (task_verdict action) then 1 else 0)
      ≤ (if approval_of x.task_id (apply_decision_row now x) then 1 else 0)
unfolding is_authorised task_verdict action_eq decision_is_applied
verdict_due now x action t asked = ground (arith, ==_refl x.task_id)

failure_due :
    (status : TaskStatus) (m : ℕ)
    → is_failure_status status ≡ true
    → (if is_authorised status then 1 else 0) ≤ m
unfolding is_authorised
failure_due status m h = ground arith

pub apply_terminal_decision-IsSound :
    (now d : ℕ) (action : Action) (db : Db)
    → is_terminal action ≡ true
    → IsSound db
    → Ends IsSound (apply_terminal_decision now d action db)
unfolding apply_terminal_decision decision_is_pending
apply_terminal_decision-IsSound now d action db t h =
    Ends-bind (lock_decision d db) _ λ (x, task, plan) locked.
      Ends-if (decision_is_applied x.status) _ _ (λ _. Ends-ok _ _ h)
        λ _.
          Ends-bind (require_pending_action x plan action) _
            λ u passed. Ends-ok _ _ (conclude x task plan u locked passed)
  where
    conclude :
        (x : PlanningDecision) (task : Task) (plan : ImplementationPlan) (u : Unit {0})
        → lock_decision d db ≡ ok (x, task, plan)
        → require_pending_action x plan action ≡ ok u
        → Inv
            (modify task_key task.id (mark (task_verdict action) none none) db.tasks)
            db.planning_runs
            (modify decision_key d (apply_decision_row now) db.decisions)
            db.implementation_runs
    conclude x task plan u locked passed =
        let (found, _, same) = lock_decision-ok d db x task plan locked in
        let (pending, asked) = pending_action-ok x plan action u passed in
        Inv-conclude _ _ _ _ h d (apply_decision_row now) x found (refl, refl, pending) (λ r. refl)
          task.id (mark (task_verdict action) none none) same (λ y. refl)
          (λ y. verdict_due now x action t asked)

pub fail_decision-IsSound :
    (d : ℕ) (status : TaskStatus) (code message : String) (db : Db)
    → is_failure_status status ≡ true
    → IsSound db
    → Ends IsSound (fail_decision d status code message db)
unfolding fail_decision decision_is_pending
fail_decision-IsSound d status code message db t h =
    Ends-bind (lock_decision d db) _ λ (x, task, plan) locked.
      Ends-if (decision_is_pending x.status) _ _
        (λ pending. Ends-ok _ _ (conclude x task plan pending locked)) λ _. Ends-ok _ _ h
  where
    conclude :
        (x : PlanningDecision) (task : Task) (plan : ImplementationPlan)
        → decision_is_pending x.status ≡ true
        → lock_decision d db ≡ ok (x, task, plan)
        → Inv
            (modify task_key task.id (mark status (some code) (some message)) db.tasks)
            db.planning_runs
            (modify decision_key d (fail_decision_row code message) db.decisions)
            db.implementation_runs
    conclude x task plan pending locked =
        let (found, _, same) = lock_decision-ok d db x task plan locked in
        Inv-conclude _ _ _ _ h d (fail_decision_row code message) x found (refl, refl, pending)
          (λ r. refl) task.id (mark status (some code) (some message)) same (λ y. refl)
          (λ y. failure_due status _ t)

pub persist_revision-IsSound :
    (plan_id now d : ℕ) (bundle : PlanningEvidenceBundle) (draft : ImplementationPlanDraft)
    (feedback : String) (db : Db)
    → IsSound db
    → Ends IsSound (persist_revision plan_id now d bundle draft feedback db)
unfolding persist_revision decision_is_pending
persist_revision-IsSound plan_id now d bundle draft feedback db h =
    Ends-bind (lock_decision d db) _ λ (x, task, previous) locked.
      Ends-bind (require_pending_action x previous Action.request_changes) _ λ u passed.
        Ends-bind (run_matches bundle _) _ λ run found.
          Ends-bind (insert_plan _ _) _
            λ plans inserted. Ends-ok _ _ (conclude x task previous u locked passed)
  where
    conclude :
        (x : PlanningDecision) (task : Task) (plan : ImplementationPlan) (u : Unit {0})
        → lock_decision d db ≡ ok (x, task, plan)
        → require_pending_action x plan Action.request_changes ≡ ok u
        → Inv
            (modify task_key task.id (mark TaskStatus.waiting_approval none none) db.tasks)
            db.planning_runs
            (modify decision_key d (apply_decision_row now) db.decisions)
            db.implementation_runs
    conclude x task plan u locked passed =
        let (found, _, same) = lock_decision-ok d db x task plan locked in
        let (pending, asked) = pending_action-ok x plan Action.request_changes u passed in
        Inv-conclude _ _ _ _ h d (apply_decision_row now) x found (refl, refl, pending) (λ r. refl)
          task.id (mark TaskStatus.waiting_approval none none) same (λ y. refl)
          (λ y. failure_due TaskStatus.waiting_approval _ refl)

submittable-ok :
    (task : Task) (plan : ImplementationPlan) (expected : ℕ) (u : Unit {0})
    → require_submittable task plan expected ≡ ok u
    → is_waiting_approval task.status ≡ true
unfolding require_submittable
submittable-ok task plan expected u h = ground arith

current_plan-ok :
    (t : ℕ) (db : Db) (run : PlanningRun) (plan : ImplementationPlan)
    → lock_current_plan t db ≡ ok (run, plan)
    → find (run_of_task t) db.planning_runs ≡ some run
unfolding lock_current_plan
current_plan-ok t db run plan h = ground arith

pub submit_decision-IsSound :
    (decision_id t : ℕ) (payload : PlanningDecisionCreate) (task : Task) (db : Db)
    → get task_key t db.tasks ≡ some task
    → IsSound db
    → Ends IsSound (submit_decision decision_id t payload task db)
unfolding submit_decision new_decision is_waiting_approval is_authorised insert_decision
submit_decision-IsSound decision_id t payload task db at_t h =
    Ends-bind (lock_current_plan t db) _ λ (run, plan) locked.
      Ends-bind (require_submittable task plan _) _ λ u waiting.
        Ends-bind (insert_decision _ _) _ λ decisions inserted. Ends-ok _ _ (
          subst
            (λ ds.
              Inv (modify task_key t (mark_status TaskStatus.decision_pending) db.tasks)
                db.planning_runs ds db.implementation_runs)
            (sym (insert-ok _ _ _ decisions inserted).0)
            (conclude run (new_decision decision_id t payload run plan) refl refl
              (current_plan-ok t db run plan locked)
              (submittable-ok task plan payload.expected_plan_version u waiting)))
  where
    conclude :
        (run : PlanningRun) (x : PlanningDecision)
        → x.task_id ≡ t
        → x.status ≡ DecisionStatus.pending
        → find (run_of_task t) db.planning_runs ≡ some run
        → is_waiting_approval task.status ≡ true
        → Inv
            (modify task_key t (mark_status TaskStatus.decision_pending) db.tasks)
            db.planning_runs
            (db.decisions ++ x ∷ [])
            db.implementation_runs
    conclude run x own new planned waiting =
        Inv-decide _ _ _ _
          (Inv-mark _ _ _ _ h t (mark_status TaskStatus.decision_pending) (λ y. refl)
            λ y e. (le_trans (h.pending_bound t) (slack-le_one _), zero-le))
          x new (ground (arith, own, planned))
          (rw own (
            rw
              (get-modify task_key t t (mark_status TaskStatus.decision_pending) db.tasks
                (λ y. refl))
              (ground (arith, at_t, ==_refl t))))
          (rw own (ground (arith, h.pending_bound t, at_t, waiting)))

pub create_decision-IsSound :
    (decision_id t : ℕ) (payload : PlanningDecisionCreate) (db : Db)
    → IsSound db
    → Ends IsSound (create_decision decision_id t payload db)
unfolding create_decision
create_decision-IsSound decision_id t payload db h = Ends-bind (lock_task t db) _ λ task found.
    Ends-option (PlanningStore.decision_by_key t payload.idempotency_key db) _ _
      (λ _.
        submit_decision-IsSound decision_id t payload task db
          (some_or-ok task_not_found (get task_key t db.tasks) task found) h)
      λ existing _.
        Ends-bind
          (require (same_decision existing payload) (planning_conflict idempotency_key_conflict)) _
          λ _ _. Ends-ok _ _ h

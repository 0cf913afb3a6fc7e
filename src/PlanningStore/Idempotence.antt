-- ===== src/PlanningStore/Idempotence.antt =====
-- On repeated calls of `create_decision` (backend/app/services/planning_store.py).
use issue_pilot.Prelude.{
  ℕ, ◌≡◌, refl, sym, subst, Option, none, some, [], ◌∷◌, ◌++◌, true, ==_refl, text_eq?_refl, arith,
}
use issue_pilot.Prelude.Table.{find, get, modify, get-modify, find-append_fresh}
use issue_pilot.Status.{TaskStatus, Action, action_eq}
use issue_pilot.Schemas.{PlanningDecisionCreate}
use issue_pilot.Result.{Result, ok, err}
use issue_pilot.Db.{
  Db, Task, PlanningRun, ImplementationPlan, PlanningDecision, task_key, insert_decision,
}
use issue_pilot.PlanningStore.{
  PlanningDecisionResponse, decision_response, decision_by_key, has_key, same_decision,
  lock_current_plan, require_submittable, new_decision, mark_status, submit_decision,
  create_decision,
}

pub action_eq_refl : (a : Action) → action_eq a a ≡ true
unfolding action_eq
action_eq_refl a = ground arith

-- The decision that a request makes is one that the same request accepts.
same_decision-new :
    (decision_id t : ℕ) (payload : PlanningDecisionCreate) (run : PlanningRun)
    (plan : ImplementationPlan)
    → plan.version ≡ payload.expected_plan_version
    → same_decision (new_decision decision_id t payload run plan) payload ≡ true
unfolding same_decision new_decision
same_decision-new decision_id t payload run plan e =
    ground (arith, action_eq_refl payload.action, text_eq?_refl payload.comment)

-- What a successful submission did.
record Submitted (decision_id t : ℕ) (payload : PlanningDecisionCreate) (db : Db)
    (r : PlanningDecisionResponse) (db' : Db) : Type 0 where
  run : PlanningRun
  plan : ImplementationPlan
  version : plan.version ≡ payload.expected_plan_version
  row : db'.decisions ≡ db.decisions ++ new_decision decision_id t payload run plan ∷ []
  task : db'.tasks ≡ modify task_key t (mark_status TaskStatus.decision_pending) db.tasks
  response :
      r
      ≡ decision_response (new_decision decision_id t payload run plan) TaskStatus.decision_pending

submit_decision-ok :
    (decision_id t : ℕ) (payload : PlanningDecisionCreate) (task : Task) (db : Db)
    (r : PlanningDecisionResponse) (db' : Db)
    → submit_decision decision_id t payload task db ≡ ok (r, db')
    → Submitted decision_id t payload db r db'
unfolding submit_decision require_submittable insert_decision
submit_decision-ok decision_id t payload task db r db' h = go (lock_current_plan t db) refl
  where
    go :
        (l : Result (PlanningRun × ImplementationPlan))
        → lock_current_plan t db ≡ l
        → Submitted decision_id t payload db r db'
    go (ok (run, plan)) e = record {
      run = run;
      plan = plan;
      version = ground arith;
      row = ground arith;
      task = ground arith;
      response = ground arith;
    }
    go (err x) e = absurd (ground arith)

-- A key that is taken: the stored decision answers.
create_decision_existing :
    (other t : ℕ) (payload : PlanningDecisionCreate) (task : Task) (x : PlanningDecision) (db : Db)
    → get task_key t db.tasks ≡ some task
    → decision_by_key t payload.idempotency_key db ≡ some x
    → same_decision x payload ≡ true
    → create_decision other t payload db ≡ ok (decision_response x task.status, db)
unfolding create_decision
create_decision_existing other t payload task x db at_t found same = ground arith

-- In the rows after a submission, the key finds the new decision, and the task is decision_pending.
create_decision-Submitted :
    (decision_id other t : ℕ) (payload : PlanningDecisionCreate) (task : Task) (db : Db)
    (r : PlanningDecisionResponse) (db' : Db)
    → get task_key t db.tasks ≡ some task
    → decision_by_key t payload.idempotency_key db ≡ none
    → Submitted decision_id t payload db r db'
    → create_decision other t payload db' ≡ ok (r, db')
unfolding decision_by_key
create_decision-Submitted decision_id other t payload task db r db' at_t fresh s =
    subst (λ z. create_decision other t payload db' ≡ ok (z, db')) (sym s.response)
      (create_decision_existing other t payload (mark_status TaskStatus.decision_pending task) x db'
        stored keyed (same_decision-new decision_id t payload s.run s.plan s.version))
  where
    x : PlanningDecision
    x = new_decision decision_id t payload s.run s.plan

    stored : get task_key t db'.tasks ≡ some (mark_status TaskStatus.decision_pending task)
    stored =
        subst (λ ts. get task_key t ts ≡ some (mark_status TaskStatus.decision_pending task))
          (sym s.task)
          (rw
            (get-modify task_key t t (mark_status TaskStatus.decision_pending) db.tasks (λ y. refl))
            (ground (arith, at_t, ==_refl t)))

    keyed : find (has_key t payload.idempotency_key) db'.decisions ≡ some x
    keyed =
        subst (λ ds. find (has_key t payload.idempotency_key) ds ≡ some x) (sym s.row)
          (rw (find-append_fresh (has_key t payload.idempotency_key) db.decisions x fresh)
            (unfold new_decision in ground (arith, ==_refl t, ==_refl payload.idempotency_key)))

-- A decision request that succeeds, repeated with the same idempotency key and content, succeeds
-- again with the same response, writes nothing, and ignores the new id.
pub create_decision_replay :
    (decision_id other t : ℕ) (payload : PlanningDecisionCreate) (db : Db)
    (r : PlanningDecisionResponse) (db' : Db)
    → create_decision decision_id t payload db ≡ ok (r, db')
    → create_decision other t payload db' ≡ ok (r, db')
unfolding create_decision
create_decision_replay decision_id other t payload db r db' h =
    with_task (get task_key t db.tasks) refl
  where
    with_task :
        (o : Option Task)
        → get task_key t db.tasks ≡ o
        → create_decision other t payload db' ≡ ok (r, db')
    with_task none e = absurd (ground arith)
    with_task (some task) e = with_key (decision_by_key t payload.idempotency_key db) refl
      where
        with_key :
            (o : Option PlanningDecision)
            → decision_by_key t payload.idempotency_key db ≡ o
            → create_decision other t payload db' ≡ ok (r, db')
        with_key none k =
            create_decision-Submitted decision_id other t payload task db r db' e k
              (submit_decision-ok decision_id t payload task db r db' (ground arith))
        with_key (some x) k = ground arith

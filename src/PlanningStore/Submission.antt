-- ===== src/PlanningStore/Submission.antt =====
-- On when `create_decision` of backend/app/services/planning_store.py takes a decision.
use issue_pilot.Prelude.{
  ℕ, ◌≡◌, ◌⊎◌, inl, inr, refl, ap, ◌∙◌, Option, none, some, [], ◌∷◌, ◌++◌, true, arith,
}
use issue_pilot.Prelude.Table.{get, find, modify, find_sound}
use issue_pilot.Status.{TaskStatus, PlanStatus, DecisionStatus, is_waiting_approval}
use issue_pilot.Schemas.{PlanningDecisionCreate}
use issue_pilot.Result.{ok}
use issue_pilot.Db.{
  Db, Task, PlanningRun, ImplementationPlan, PlanningDecision, task_key, insert_decision,
}
use issue_pilot.PlanningStore.{
  PlanningDecisionResponse, decision_response, decision_by_key, same_decision, run_of_task,
  proposed_of, lock_current_plan, require_submittable, new_decision, submit_decision,
  create_decision,
}
use issue_pilot.PlanningStore.Judged.{same_action, status_proposed}

-- The row of a new decision.
abbrev row_of : ℕ → ℕ → PlanningDecisionCreate → PlanningRun → ImplementationPlan → PlanningDecision
row_of decision_id t payload run plan = record {
  id = decision_id;
  task_id = t;
  run_id = run.id;
  plan_id = plan.id;
  plan_version = payload.expected_plan_version;
  action = payload.action;
  comment = payload.comment;
  idempotency_key = payload.idempotency_key;
  status = DecisionStatus.pending;
  failure_code = none;
  failure_message = none;
  applied_at = none;
}

-- A new decision on the proposed plan of a task that waits for approval, in the version that the
-- request expects; it is stored as pending, and the task is decision_pending.
pub record Accepted (decision_id t : ℕ) (payload : PlanningDecisionCreate) (db : Db)
    (r : PlanningDecisionResponse) (db' : Db) : Type 0 where
  pub task : Task
  pub run : PlanningRun
  pub plan : ImplementationPlan
  pub task_row : get task_key t db.tasks ≡ some task
  pub waits : task.status ≡ TaskStatus.waiting_approval
  pub new_key : decision_by_key t payload.idempotency_key db ≡ none
  pub run_row : find (run_of_task t) db.planning_runs ≡ some run
  pub plan_row : find (proposed_of run.id) db.plans ≡ some plan
  pub of_run : plan.run_id ≡ run.id
  pub proposed : plan.status ≡ PlanStatus.proposed
  pub version : plan.version ≡ payload.expected_plan_version
  pub stored : db'.decisions ≡ db.decisions ++ row_of decision_id t payload run plan ∷ []
  pub answer : r.decision_id ≡ decision_id
  pub marked :
      db'.tasks
      ≡ modify task_key t (λ y. record y { status = TaskStatus.decision_pending }) db.tasks

-- A decision is stored under the key already, with the request's action and version.
pub record Replayed (t : ℕ) (payload : PlanningDecisionCreate) (db : Db)
    (r : PlanningDecisionResponse) (db' : Db) : Type 0 where
  pub existing : PlanningDecision
  pub found : decision_by_key t payload.idempotency_key db ≡ some existing
  pub same_action : existing.action ≡ payload.action
  pub same_version : existing.plan_version ≡ payload.expected_plan_version
  pub answer : r.decision_id ≡ existing.id
  pub unchanged : db' ≡ db

status_waiting : (s : TaskStatus) → is_waiting_approval s ≡ true → s ≡ TaskStatus.waiting_approval
unfolding is_waiting_approval
status_waiting TaskStatus.created h = ground (arith, h)
status_waiting TaskStatus.queued h = ground (arith, h)
status_waiting TaskStatus.cloning h = ground (arith, h)
status_waiting TaskStatus.cloned h = ground (arith, h)
status_waiting TaskStatus.indexing h = ground (arith, h)
status_waiting TaskStatus.indexed h = ground (arith, h)
status_waiting TaskStatus.retrieving h = ground (arith, h)
status_waiting TaskStatus.retrieved h = ground (arith, h)
status_waiting TaskStatus.analyzing h = ground (arith, h)
status_waiting TaskStatus.waiting_approval h = refl
status_waiting TaskStatus.decision_pending h = ground (arith, h)
status_waiting TaskStatus.revising h = ground (arith, h)
status_waiting TaskStatus.approved h = ground (arith, h)
status_waiting TaskStatus.rejected h = ground (arith, h)
status_waiting TaskStatus.recovery_blocked h = ground (arith, h)
status_waiting TaskStatus.implementation_pending h = ground (arith, h)
status_waiting TaskStatus.generating_patch h = ground (arith, h)
status_waiting TaskStatus.patch_ready h = ground (arith, h)
status_waiting TaskStatus.test_pending h = ground (arith, h)
status_waiting TaskStatus.testing h = ground (arith, h)
status_waiting TaskStatus.tested h = ground (arith, h)
status_waiting TaskStatus.test_failed h = ground (arith, h)
status_waiting TaskStatus.failed h = ground (arith, h)

module _ (decision_id t : ℕ) (payload : PlanningDecisionCreate) (db : Db)
    (r : PlanningDecisionResponse) (db' : Db) where
  -- What `submit_decision` has checked and written.
  record Submitted (task : Task) : Type 0 where
    run : PlanningRun
    plan : ImplementationPlan
    run_row : find (run_of_task t) db.planning_runs ≡ some run
    plan_row : find (proposed_of run.id) db.plans ≡ some plan
    waits : is_waiting_approval task.status ≡ true
    version : plan.version ≡ payload.expected_plan_version
    stored : db'.decisions ≡ db.decisions ++ new_decision decision_id t payload run plan ∷ []
    response :
        r
        ≡ decision_response
            (new_decision decision_id t payload run plan)
            TaskStatus.decision_pending
    marked :
        db'.tasks
        ≡ modify task_key t (λ y. record y { status = TaskStatus.decision_pending }) db.tasks

  submit_decision-Submitted :
      (task : Task) → submit_decision decision_id t payload task db ≡ ok (r, db') → Submitted task
  unfolding submit_decision require_submittable insert_decision lock_current_plan
  submit_decision-Submitted task h = with_run (find (run_of_task t) db.planning_runs) refl
    where
      with_plan :
          (run : PlanningRun)
          → find (run_of_task t) db.planning_runs ≡ some run
          → (o : Option ImplementationPlan) → find (proposed_of run.id) db.plans ≡ o
          → Submitted task
      with_plan run e none k = absurd (ground arith)
      with_plan run e (some plan) k = record {
        run = run;
        plan = plan;
        run_row = e;
        plan_row = k;
        waits = ground arith;
        version = ground arith;
        stored = ground arith;
        response = ground arith;
        marked = ground arith;
      }

      with_run :
          (o : Option PlanningRun) → find (run_of_task t) db.planning_runs ≡ o → Submitted task
      with_run none e = absurd (ground arith)
      with_run (some run) e = with_plan run e (find (proposed_of run.id) db.plans) refl

  accepted :
      (task : Task)
      → get task_key t db.tasks ≡ some task
      → decision_by_key t payload.idempotency_key db ≡ none
      → Submitted task
      → Accepted decision_id t payload db r db'
  unfolding new_decision decision_response
  accepted task e k s =
      let fits = find_sound (proposed_of s.run.id) db.plans s.plan s.plan_row in
      record {
        task = task;
        run = s.run;
        plan = s.plan;
        task_row = e;
        waits = status_waiting task.status s.waits;
        new_key = k;
        run_row = s.run_row;
        plan_row = s.plan_row;
        of_run = ground (arith, fits);
        proposed = status_proposed s.plan.status (ground (arith, fits));
        version = s.version;
        stored =
            s.stored
            ∙ ap
                (λ v.
                  db.decisions
                  ++ record (row_of decision_id t payload s.run s.plan) { plan_version = v } ∷ [])
                s.version;
        answer = ap (λ p. p.decision_id) s.response;
        marked = s.marked;
      }

  replayed :
      (task : Task) (x : PlanningDecision)
      → decision_by_key t payload.idempotency_key db ≡ some x
      → same_decision x payload ≡ true
      → r ≡ decision_response x task.status
      → db' ≡ db
      → Replayed t payload db r db'
  unfolding same_decision decision_response
  replayed task x k same answer unchanged = record {
    existing = x;
    found = k;
    same_action = same_action x.action payload.action (ground (arith, same));
    same_version = ground (arith, same);
    answer = ap (λ p. p.decision_id) answer;
    unchanged = unchanged;
  }

  -- `create_decision` succeeds only in two cases. Either the task waits for approval, the key is
  -- unused, and the request expects the version of the proposed plan of the task's run; then the
  -- decision is added to the decisions, pending and on that plan, and the task is decision_pending.
  -- Or a decision of the same action and version is stored under the key; then it answers, and
  -- nothing is written. So no decision is taken on a version that is not the proposed one.
  pub create_decision-Accepted :
      create_decision decision_id t payload db ≡ ok (r, db')
      → Accepted decision_id t payload db r db' ⊎ Replayed t payload db r db'
  unfolding create_decision
  create_decision-Accepted h = with_task (get task_key t db.tasks) refl
    where
      with_key :
          (task : Task)
          → get task_key t db.tasks ≡ some task
          → (o : Option PlanningDecision) → decision_by_key t payload.idempotency_key db ≡ o
          → Accepted decision_id t payload db r db' ⊎ Replayed t payload db r db'
      with_key task e none k =
          inl (accepted task e k (submit_decision-Submitted task (ground arith)))
      with_key task e (some x) k =
          inr (replayed task x k (ground arith) (ground arith) (ground arith))

      with_task :
          (o : Option Task)
          → get task_key t db.tasks ≡ o
          → Accepted decision_id t payload db r db' ⊎ Replayed t payload db r db'
      with_task none e = absurd (ground arith)
      with_task (some task) e = with_key task e (decision_by_key t payload.idempotency_key db) refl

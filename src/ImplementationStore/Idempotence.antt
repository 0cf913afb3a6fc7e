-- ===== src/ImplementationStore/Idempotence.antt =====
-- On repeated calls of `create_run` (backend/app/services/implementation_store.py).
use issue_pilot.Prelude.{
  ℕ, ◌≡◌, refl, sym, subst, String, Option, none, some, [], ◌∷◌, ◌++◌, ==_refl, arith,
}
use issue_pilot.Prelude.Table.{find, get, modify, get-modify, find-append_fresh}
use issue_pilot.Status.{TaskStatus}
use issue_pilot.Schemas.{ImplementationCreate}
use issue_pilot.Result.{Result, ok, err}
use issue_pilot.Db.{
  Db, Task, PlanningRun, ImplementationPlan, ImplementationRun, task_key, insert_implementation_run,
}
use issue_pilot.PlanningStore.{mark}
use issue_pilot.ImplementationStore.{
  ImplementationResponse, run_key_of, approved_plan, new_implementation_run, response, start_run,
  create_run,
}

-- What a new run changes.
record Started (run_id t : ℕ) (payload : ImplementationCreate) (provider model : String) (db : Db)
    (r : ImplementationResponse) (db' : Db) : Type 0 where
  planning_run : PlanningRun
  plan : ImplementationPlan
  version : plan.version ≡ payload.expected_plan_version
  rows :
      db'.implementation_runs
      ≡ db.implementation_runs
        ++ new_implementation_run run_id t payload planning_run plan provider model ∷ []
  tasks : db'.tasks ≡ modify task_key t (mark TaskStatus.implementation_pending none none) db.tasks
  answer :
      r ≡ response (new_implementation_run run_id t payload planning_run plan provider model) db'

start_run-ok :
    (run_id t : ℕ) (payload : ImplementationCreate) (provider model : String) (task : Task)
    (db : Db) (r : ImplementationResponse) (db' : Db)
    → start_run run_id t payload provider model task db ≡ ok (r, db')
    → Started run_id t payload provider model db r db'
unfolding start_run insert_implementation_run
start_run-ok run_id t payload provider model task db r db' h = go (approved_plan t db) refl
  where
    go :
        (m : Result (PlanningRun × ImplementationPlan))
        → approved_plan t db ≡ m
        → Started run_id t payload provider model db r db'
    go (ok (planning_run, plan)) e = record {
      planning_run = planning_run;
      plan = plan;
      version = ground arith;
      rows = ground arith;
      tasks = ground arith;
      answer = ground arith;
    }
    go (err x) e = absurd (ground arith)

create_run_existing :
    (other t : ℕ) (payload : ImplementationCreate) (provider model : String) (task : Task)
    (x : ImplementationRun) (db : Db)
    → get task_key t db.tasks ≡ some task
    → find (run_key_of t payload.idempotency_key) db.implementation_runs ≡ some x
    → x.plan_version ≡ payload.expected_plan_version
    → create_run other t payload provider model db ≡ ok (response x db, db)
unfolding create_run
create_run_existing other t payload provider model task x db at_t found same = ground arith

create_run-Started :
    (run_id other t : ℕ) (payload : ImplementationCreate)
    (provider model other_provider other_model : String) (task : Task) (db : Db)
    (r : ImplementationResponse) (db' : Db)
    → get task_key t db.tasks ≡ some task
    → find (run_key_of t payload.idempotency_key) db.implementation_runs ≡ none
    → Started run_id t payload provider model db r db'
    → create_run other t payload other_provider other_model db' ≡ ok (r, db')
create_run-Started run_id other t payload provider model other_provider other_model task db r db'
      at_t fresh s =
    subst (λ z. create_run other t payload other_provider other_model db' ≡ ok (z, db'))
      (sym s.answer)
      (create_run_existing other t payload other_provider other_model
        (mark TaskStatus.implementation_pending none none task) x db' stored keyed
        (unfold new_implementation_run in s.version))
  where
    x : ImplementationRun
    x = new_implementation_run run_id t payload s.planning_run s.plan provider model

    stored : get task_key t db'.tasks ≡ some (mark TaskStatus.implementation_pending none none task)
    stored =
        subst
          (λ ts. get task_key t ts ≡ some (mark TaskStatus.implementation_pending none none task))
          (sym s.tasks)
          (rw
            (get-modify task_key t t (mark TaskStatus.implementation_pending none none) db.tasks
              (λ y. refl))
            (ground (arith, at_t, ==_refl t)))

    keyed : find (run_key_of t payload.idempotency_key) db'.implementation_runs ≡ some x
    keyed =
        subst (λ rs. find (run_key_of t payload.idempotency_key) rs ≡ some x) (sym s.rows)
          (rw
            (find-append_fresh (run_key_of t payload.idempotency_key) db.implementation_runs x
              fresh)
            (unfold new_implementation_run in
              ground (arith, ==_refl t, ==_refl payload.idempotency_key)))

-- An implementation request that succeeds, repeated with the same idempotency key and plan version,
-- succeeds again with the same response and writes nothing, whatever the new id, provider and model.
pub create_run_replay :
    (run_id other t : ℕ) (payload : ImplementationCreate)
    (provider model other_provider other_model : String) (db : Db) (r : ImplementationResponse)
    (db' : Db)
    → create_run run_id t payload provider model db ≡ ok (r, db')
    → create_run other t payload other_provider other_model db' ≡ ok (r, db')
unfolding create_run
create_run_replay run_id other t payload provider model other_provider other_model db r db' h =
    with_task (get task_key t db.tasks) refl
  where
    with_task :
        (o : Option Task)
        → get task_key t db.tasks ≡ o
        → create_run other t payload other_provider other_model db' ≡ ok (r, db')
    with_task none e = absurd (ground arith)
    with_task (some task) e =
        with_key (find (run_key_of t payload.idempotency_key) db.implementation_runs) refl
      where
        with_key :
            (o : Option ImplementationRun)
            → find (run_key_of t payload.idempotency_key) db.implementation_runs ≡ o
            → create_run other t payload other_provider other_model db' ≡ ok (r, db')
        with_key none k =
            create_run-Started run_id other t payload provider model other_provider other_model task
              db r db' e k
              (start_run-ok run_id t payload provider model task db r db' (ground arith))
        with_key (some x) k = ground arith

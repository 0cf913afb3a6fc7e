-- ===== src/System/Reach.antt =====
-- The databases that service calls and database faults can reach from an empty one.
use issue_pilot.Prelude.{
  ℕ, ◌≤◌, ◌≡◌, some, List, [], ◌∷◌, Bool, true, false, ◌==◌, if◌then◌else◌, arith,
}
use issue_pilot.Prelude.Table.{count, get, find, All-find}
use issue_pilot.Status.{is_waiting_approval}
use issue_pilot.Db.{Db, Task, ImplementationRun, empty, task_key, run_key}
use issue_pilot.Transaction.{transaction-Ends}
use issue_pilot.System.{
  Request, create_task, set_status, set_failure_if_status_in, scan, persist_planning,
  create_decision, apply_terminal_decision, persist_revision, fail_decision, create_run,
  set_generating, persist_patch, create_test, mark_testing, persist_test_result, fail, step, run,
  is_service_call, are_service_calls,
}
use issue_pilot.System.Invariant.{IsSound, pending_on, approval_of, is_authorised}
use issue_pilot.System.Tasks
use issue_pilot.System.Planning
use issue_pilot.System.Decisions
use issue_pilot.System.Implementing
use issue_pilot.System.Testing

pub step-IsSound :
    (fault : Bool) (request : Request) (db : Db)
    → is_service_call request ≡ true
    → IsSound db
    → IsSound (step fault request db)
unfolding step
step-IsSound f (create_task t url issue) db c h =
    transaction-Ends IsSound f _ db h (Tasks.create_task-IsSound t url issue db h)
step-IsSound f (set_status t s code message) db c h =
    transaction-Ends IsSound f _ db h (Tasks.set_task_status-IsSound t s code message db c h)
step-IsSound f (set_failure_if_status_in t e code message) db c h =
    transaction-Ends IsSound f _ db h (Tasks.set_failure_if_status_in-IsSound t e code message db h)
step-IsSound f (scan snapshots indexes retrievals) db c h = h
step-IsSound f (persist_planning r p bundle analysis plan provider model version) db c h =
    transaction-Ends IsSound f _ db h
      (Planning.persist_planning-IsSound r p bundle analysis plan provider model version db h)
step-IsSound f (create_decision d t payload) db c h =
    transaction-Ends IsSound f _ db h (Decisions.create_decision-IsSound d t payload db h)
step-IsSound f (apply_terminal_decision now d action) db c h =
    transaction-Ends IsSound f _ db h
      (Decisions.apply_terminal_decision-IsSound now d action db c h)
step-IsSound f (persist_revision p now d bundle plan feedback) db c h =
    transaction-Ends IsSound f _ db h
      (Decisions.persist_revision-IsSound p now d bundle plan feedback db h)
step-IsSound f (fail_decision d s code message) db c h =
    transaction-Ends IsSound f _ db h (Decisions.fail_decision-IsSound d s code message db c h)
step-IsSound f (create_run r t payload provider model) db c h =
    transaction-Ends IsSound f _ db h
      (Implementing.create_run-IsSound r t payload provider model db h)
step-IsSound f (set_generating r relpath) db c h =
    transaction-Ends IsSound f _ db h (Implementing.set_generating-IsSound r relpath db h)
step-IsSound f (persist_patch r draft) db c h =
    transaction-Ends IsSound f _ db h (Implementing.persist_patch-IsSound r draft db h)
step-IsSound f (create_test x t payload image) db c h =
    transaction-Ends IsSound f _ db h (Testing.create_test-IsSound x t payload image db h)
step-IsSound f (mark_testing x) db c h =
    transaction-Ends IsSound f _ db h (Testing.mark_testing-IsSound x db h)
step-IsSound f (persist_test_result now x result) db c h =
    transaction-Ends IsSound f _ db h (Testing.persist_test_result-IsSound now x result db h)
step-IsSound f (fail r code message blocked) db c h =
    transaction-Ends IsSound f _ db h (Testing.fail-IsSound r code message blocked db h)

pub run-IsSound :
    (requests : List (Bool × Request)) (db : Db)
    → are_service_calls requests ≡ true
    → IsSound db
    → IsSound (run requests db)
unfolding run
run-IsSound [] db c h = h
run-IsSound ((fault, request) ∷ rest) db c h =
    let (first, others) = both (is_service_call request) (are_service_calls rest) c in
    run-IsSound rest (step fault request db) others (step-IsSound fault request db first h)
  where
    both : (a b : Bool) → elim a [ true ↦ b | false ↦ false ] ≡ true → (a ≡ true) × (b ≡ true)
    both a b e = ground arith

empty-IsSound : IsSound empty
unfolding find count
empty-IsSound = record {
  pending_bound = λ t. omega arith;
  decided_planned = tt;
  status_approved = λ t. omega arith;
  runs_approved = tt;
}

module _ (requests : List (Bool × Request)) (calls : are_service_calls requests ≡ true)
    (t : ℕ) where
  -- If every request passes only what the services pass (`is_service_call`), then, in any order and
  -- with any database faults: a task that is approved, or in any state of the implementation
  -- (implementation_pending to tested or test_failed), has an approve decision of a user that was
  -- carried out.
  pub authorised_was_approved :
      (task : Task)
      → get task_key t (run requests empty).tasks ≡ some task
      → is_authorised task.status ≡ true
      → 1 ≤ count (approval_of t) (run requests empty).decisions
  authorised_was_approved task found auth =
      ground (arith, (run-IsSound requests empty calls empty-IsSound).status_approved t)

  -- If every request passes only what the services pass (`is_service_call`), then, in any order and
  -- with any database faults: a task has at most one pending decision, and none while it waits for
  -- approval.
  pub one_pending_decision :
      (task : Task)
      → get task_key t (run requests empty).tasks ≡ some task
      → count (pending_on t) (run requests empty).decisions
        ≤ (if is_waiting_approval task.status then 0 else 1)
  one_pending_decision task found =
      ground (arith, (run-IsSound requests empty calls empty-IsSound).pending_bound t)

  -- If every request passes only what the services pass (`is_service_call`), then, in any order and
  -- with any database faults: the task of every implementation run has an approve decision of a
  -- user that was carried out.
  pub run_was_approved :
      (r : ImplementationRun)
      → get run_key t (run requests empty).implementation_runs ≡ some r
      → 1 ≤ count (approval_of r.task_id) (run requests empty).decisions
  run_was_approved r found =
      All-find _ (λ x. x.id == t) _ r (run-IsSound requests empty calls empty-IsSound).runs_approved
        found

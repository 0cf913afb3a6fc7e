-- ===== src/System/Implementing.antt =====
-- The methods of SqlImplementationStore up to the patch, against the invariant of the workflow.
use native.Mathlib.Nat.{le_trans}
use issue_pilot.Prelude.{
  ℕ, ◌≤◌, ◌≡◌, refl, sym, subst, Option, none, some, String, Bool, false, not, ◌&&◌, ◌==◌, arith,
  [], ◌∷◌, ◌++◌,
}
use issue_pilot.Prelude.Table.{count, exists, get, find, modify, find_sound, All-find}
use issue_pilot.Status.{
  TaskStatus, RunStatus, is_waiting_approval, is_approved, plan_is_approved, run_can_generate,
  run_is_generating,
}
use issue_pilot.Schemas.{ImplementationCreate, PatchArtifactDraft}
use issue_pilot.Result.{
  ok, require, task_not_found, implementation_conflict, implementation_not_approved,
  implementation_already_exists, plan_version_conflict, implementation_request_mismatch,
  implementation_state_conflict, patch_state_conflict,
}
use issue_pilot.Db.{
  Db, Task, ImplementationRun, TestRun, task_key, run_key, patch_key, insert-ok,
  insert_implementation_run, insert_patch,
}
use issue_pilot.Transaction.{Ends, Ends-ok, Ends-bind, Ends-option, some_or-ok}
use issue_pilot.PlanningStore.{mark, mark_status, lock_task}
use issue_pilot.ImplementationStore.{
  lock_run_and_task, lock_test_run_task, impl_of_task, run_key_of, approved_plan,
  new_implementation_run, start_run, create_run, generating_row, run_status_row, set_generating,
  store_patch, persist_patch,
}
use issue_pilot.System.Invariant.{Inv, IsSound, approval_of, approvals_due, is_authorised}
use issue_pilot.System.Tables.{Inv-mark, Inv-start, Inv-run, slack-le_one}

-- The task of an implementation run takes a status that awaits no approval.
pub run_mark :
    (db : Db) (q : ImplementationRun → Bool) (run : ImplementationRun) (t : ℕ)
    → IsSound db
    → find q db.implementation_runs ≡ some run
    → t ≡ run.task_id
    → (k : ℕ) (f : ImplementationRun → ImplementationRun) (g : Task → Task)
    → ((x : ImplementationRun) → (f x).task_id ≡ x.task_id)
    → ((y : Task) → (g y).id ≡ y.id)
    → ((y : Task) → is_waiting_approval (g y).status ≡ false)
    → Inv
        (modify task_key t g db.tasks)
        db.planning_runs
        db.decisions
        (modify run_key k f db.implementation_runs)
run_mark db q run t h found at_t k f g same same_id busy =
    Inv-run _ _ _ _
      (Inv-mark _ _ _ _ h t g same_id λ y e. (
        rw (busy y) (le_trans (h.pending_bound t) (slack-le_one _)),
        rw at_t (
            le_trans (due-le_one (some (g y)))
              (All-find _ q db.implementation_runs run h.runs_approved found)),
      ))
      k f same
  where
    due-le_one : (o : Option Task) → approvals_due o ≤ 1
    due-le_one o = ground arith

pub lock_run_and_task-ok :
    (r : ℕ) (db : Db) (run : ImplementationRun) (task : Task)
    → lock_run_and_task r db ≡ ok (run, task)
    → (get run_key r db.implementation_runs ≡ some run) × (task.id ≡ run.task_id)
unfolding lock_run_and_task
lock_run_and_task-ok r db run task h =
    ground (arith, find_sound (λ (x : Task). x.id == run.task_id) db.tasks task)

pub lock_test_run_task-ok :
    (x : ℕ) (db : Db) (test : TestRun) (run : ImplementationRun) (task : Task)
    → lock_test_run_task x db ≡ ok (test, run, task)
    → lock_run_and_task test.implementation_run_id db ≡ ok (run, task)
unfolding lock_test_run_task
lock_test_run_task-ok x db test run task h = ground arith

pub set_generating-IsSound :
    (r : ℕ) (relpath : String) (db : Db) → IsSound db → Ends IsSound (set_generating r relpath db)
unfolding set_generating is_waiting_approval
set_generating-IsSound r relpath db h = Ends-bind (lock_run_and_task r db) _ λ (run, task) locked.
    Ends-bind
      (require (run_can_generate run.status)
        (implementation_conflict implementation_state_conflict))
      _
      λ _ _.
        let (found, same) = lock_run_and_task-ok r db run task locked in
        Ends-ok _ _ (
          run_mark db _ run task.id h found same r (generating_row relpath)
            (mark_status TaskStatus.generating_patch) (λ x. refl) (λ y. refl) (λ y. refl))

pub store_patch-IsSound :
    (r : ℕ) (draft : PatchArtifactDraft) (run : ImplementationRun) (task : Task) (db : Db)
    → lock_run_and_task r db ≡ ok (run, task)
    → IsSound db
    → Ends IsSound (store_patch r draft run task db)
unfolding store_patch is_waiting_approval
store_patch-IsSound r draft run task db locked h =
    Ends-bind
      (require (run_is_generating run.status)
        (implementation_conflict implementation_state_conflict))
      _
      λ _ _. Ends-bind (insert_patch _ _) _ λ patches _.
        let (found, same) = lock_run_and_task-ok r db run task locked in
        Ends-ok _ _ (
          run_mark db _ run task.id h found same r (run_status_row RunStatus.patch_ready)
            (mark_status TaskStatus.patch_ready) (λ x. refl) (λ y. refl) (λ y. refl))

pub persist_patch-IsSound :
    (r : ℕ) (draft : PatchArtifactDraft) (db : Db)
    → IsSound db
    → Ends IsSound (persist_patch r draft db)
unfolding persist_patch
persist_patch-IsSound r draft db h = Ends-bind (lock_run_and_task r db) _ λ (run, task) locked.
    Ends-option (get patch_key r db.patches) _ _
      (λ _. store_patch-IsSound r draft run task db locked h)
      λ existing _.
        Ends-bind
          (require (existing.diff_sha256 == draft.diff_sha256)
            (implementation_conflict patch_state_conflict))
          _ λ _ _. Ends-ok _ _ h

pub start_run-IsSound :
    (r t : ℕ) (payload : ImplementationCreate) (provider model : String) (task : Task) (db : Db)
    → get task_key t db.tasks ≡ some task
    → IsSound db
    → Ends IsSound (start_run r t payload provider model task db)
unfolding start_run new_implementation_run insert_implementation_run is_waiting_approval is_approved
    is_authorised
start_run-IsSound r t payload provider model task db at_t h =
    Ends-bind
      (require (not (exists (impl_of_task t) db.implementation_runs))
        (implementation_conflict implementation_already_exists))
      _
      λ _ _. Ends-bind (approved_plan t db) _ λ (planning_run, plan) _.
        Ends-bind
          (require (is_approved task.status && plan_is_approved plan.status)
            (implementation_conflict implementation_not_approved))
          _
          λ u approved.
            Ends-bind
              (require (plan.version == payload.expected_plan_version)
                (implementation_conflict plan_version_conflict))
              _
              λ _ _. Ends-bind (insert_implementation_run _ _) _ λ runs inserted. Ends-ok _ _ (
                subst
                  (λ rs.
                    Inv
                      (modify task_key t (mark TaskStatus.implementation_pending none none)
                        db.tasks)
                      db.planning_runs db.decisions rs)
                  (sym (insert-ok _ _ _ runs inserted).0)
                  (started (due u (plan_is_approved plan.status) approved)
                    (new_implementation_run r t payload planning_run plan provider model) refl))
  where
    due :
        (u : Unit {0}) (b : Bool)
        → require
            (is_approved task.status && b)
            (implementation_conflict implementation_not_approved)
          ≡ ok u
        → 1 ≤ count (approval_of t) db.decisions
    due u b approved = ground (arith, h.status_approved t, at_t)

    started :
        1 ≤ count (approval_of t) db.decisions
        → (x : ImplementationRun) → x.task_id ≡ t
        → Inv
            (modify task_key t (mark TaskStatus.implementation_pending none none) db.tasks)
            db.planning_runs
            db.decisions
            (db.implementation_runs ++ x ∷ [])
    started one x own =
        Inv-start _ _ _ _
          (Inv-mark _ _ _ _ h t (mark TaskStatus.implementation_pending none none) (λ y. refl)
            λ y e. (le_trans (h.pending_bound t) (slack-le_one _), one))
          x (rw own one)

pub create_run-IsSound :
    (r t : ℕ) (payload : ImplementationCreate) (provider model : String) (db : Db)
    → IsSound db
    → Ends IsSound (create_run r t payload provider model db)
unfolding create_run
create_run-IsSound r t payload provider model db h = Ends-bind (lock_task t db) _ λ task found.
    Ends-option (find (run_key_of t payload.idempotency_key) db.implementation_runs) _ _
      (λ _.
        start_run-IsSound r t payload provider model task db
          (some_or-ok task_not_found (get task_key t db.tasks) task found) h)
      λ existing _.
        Ends-bind
          (require (existing.plan_version == payload.expected_plan_version)
            (implementation_conflict implementation_request_mismatch))
          _ λ _ _. Ends-ok _ _ h

-- ===== src/System/Verified/Steps.antt =====
-- The methods of SqlImplementationStore against the invariant of runs, patches and tests.
use issue_pilot.Prelude.{
  ℕ, ◌≤◌, ◌≡◌, refl, sym, subst, String, Option, none, some, List, [], ◌∷◌, Bool, false, not, ◌&&◌,
  ◌==◌, ==_refl, if◌then◌else◌, arith,
}
use issue_pilot.Prelude.Table.{count, exists, get, find, modify, find_sound}
use issue_pilot.Status.{
  RunStatus, TestStatus, is_approved, plan_is_approved, run_can_generate, run_is_generating,
  run_is_test_pending, run_is_finished, test_is_pending, test_is_running, test_is_finished,
}
use issue_pilot.Schemas.{
  ImplementationCreate, TestRunCreate, PatchArtifactDraft, TestExecutionResult,
}
use issue_pilot.Result.{
  ok, require, implementation_conflict, implementation_not_approved, implementation_not_ready,
  implementation_already_exists, plan_version_conflict, implementation_request_mismatch,
  implementation_state_conflict, patch_state_conflict, test_request_mismatch, test_already_exists,
  patch_version_conflict, test_state_conflict,
}
use issue_pilot.Db.{
  Db, Task, ImplementationRun, PatchArtifact, TestRun, run_key, patch_key, test_key, insert-ok,
  insert_implementation_run, insert_patch, insert_test,
}
use issue_pilot.Transaction.{Ends, Ends-ok, Ends-bind, Ends-if, Ends-option, some_or, require-ok}
use issue_pilot.PlanningStore.{lock_task}
use issue_pilot.ImplementationStore.{
  lock_run_and_task, lock_test_run_task, impl_of_task, run_key_of, test_key_of, test_of_run,
  approved_plan, new_implementation_run, new_test_run, start_run, create_run, generating_row,
  run_status_row, running_row, finished_row, fail_row, set_generating, store_patch, persist_patch,
  ready_patch, start_test, create_test, mark_testing, persist_test_result, test_passed, fail,
}
use issue_pilot.System.Verified.{
  Tested, IsVerified, is_passed, is_clean, passes_due, patch_of, run_changed, run_added,
  patch_added, test_added, test_changed, result_recorded,
}

module _ (db : Db) (h : IsVerified db) where
  pub set_generating-IsVerified :
      (r : ℕ) (relpath : String) → Ends IsVerified (set_generating r relpath db)
  unfolding set_generating passes_due
  set_generating-IsVerified r relpath = Ends-bind (lock_run_and_task r db) _ λ (run, task) _.
      Ends-bind
        (require (run_can_generate run.status)
          (implementation_conflict implementation_state_conflict))
        _
        λ _ _. Ends-ok _ _ (
          run_changed db.implementation_runs db.patches db.tests h r (generating_row relpath)
            (λ x. refl) (λ x. refl))

  store_patch-IsVerified :
      (r : ℕ) (draft : PatchArtifactDraft) (run : ImplementationRun) (task : Task)
      → Ends IsVerified (store_patch r draft run task db)
  unfolding store_patch passes_due insert_patch
  store_patch-IsVerified r draft run task =
      Ends-bind
        (require (run_is_generating run.status)
          (implementation_conflict implementation_state_conflict))
        _
        λ _ _. Ends-bind (insert_patch _ _) _ λ patches inserted. Ends-ok _ _ (
          run_changed db.implementation_runs patches db.tests
            (subst (λ ps. Tested db.implementation_runs ps db.tests)
              (sym (insert-ok _ _ _ patches inserted).0)
              (patch_added db.implementation_runs db.patches db.tests h _))
            r (run_status_row RunStatus.patch_ready) (λ x. refl) (λ x. refl))

  pub persist_patch-IsVerified :
      (r : ℕ) (draft : PatchArtifactDraft) → Ends IsVerified (persist_patch r draft db)
  unfolding persist_patch
  persist_patch-IsVerified r draft = Ends-bind (lock_run_and_task r db) _ λ (run, task) _.
      Ends-option (get patch_key r db.patches) _ _ (λ _. store_patch-IsVerified r draft run task)
        λ existing _.
          Ends-bind
            (require (existing.diff_sha256 == draft.diff_sha256)
              (implementation_conflict patch_state_conflict))
            _ λ _ _. Ends-ok _ _ h

  start_run-IsVerified :
      (r t : ℕ) (payload : ImplementationCreate) (provider model : String) (task : Task)
      → Ends IsVerified (start_run r t payload provider model task db)
  unfolding start_run passes_due insert_implementation_run new_implementation_run
  start_run-IsVerified r t payload provider model task =
      Ends-bind
        (require (not (exists (impl_of_task t) db.implementation_runs))
          (implementation_conflict implementation_already_exists))
        _
        λ _ _. Ends-bind (approved_plan t db) _ λ (planning_run, plan) _.
          Ends-bind
            (require (is_approved task.status && plan_is_approved plan.status)
              (implementation_conflict implementation_not_approved))
            _
            λ _ _.
              Ends-bind
                (require (plan.version == payload.expected_plan_version)
                  (implementation_conflict plan_version_conflict))
                _
                λ _ _. Ends-bind (insert_implementation_run _ _) _ λ runs inserted. Ends-ok _ _ (
                  subst (λ rs. Tested rs db.patches db.tests)
                    (sym (insert-ok _ _ _ runs inserted).0)
                    (run_added db.implementation_runs db.patches db.tests h _ refl))

  pub create_run-IsVerified :
      (r t : ℕ) (payload : ImplementationCreate) (provider model : String)
      → Ends IsVerified (create_run r t payload provider model db)
  unfolding create_run
  create_run-IsVerified r t payload provider model = Ends-bind (lock_task t db) _ λ task _.
      Ends-option (find (run_key_of t payload.idempotency_key) db.implementation_runs) _ _
        (λ _. start_run-IsVerified r t payload provider model task)
        λ existing _.
          Ends-bind
            (require (existing.plan_version == payload.expected_plan_version)
              (implementation_conflict implementation_request_mismatch))
            _ λ _ _. Ends-ok _ _ h

  ready_patch-stored :
      (task : Task) (run : ImplementationRun) (patch : PatchArtifact)
      → ready_patch task run (get patch_key run.id db.patches) ≡ ok patch
      → get patch_key run.id db.patches ≡ some patch
  ready_patch-stored task run patch e = with_patch (get patch_key run.id db.patches) refl
    where
      with_patch :
          (o : Option PatchArtifact)
          → get patch_key run.id db.patches ≡ o
          → get patch_key run.id db.patches ≡ some patch
      with_patch none k = absurd (ground arith)
      with_patch (some p) k = ground arith

  stored-count :
      (run : ℕ) (patches : List PatchArtifact) (patch : PatchArtifact)
      → get patch_key run patches ≡ some patch
      → 1 ≤ count (patch_of run patch.diff_sha256) patches
  unfolding find count
  stored-count run [] patch e = ground arith
  stored-count run (p ∷ patches) patch e =
      ground (arith, stored-count run patches patch, ==_refl patch.diff_sha256)

  start_test-IsVerified :
      (x : ℕ) (payload : TestRunCreate) (image : String) (run : ImplementationRun) (task : Task)
      → Ends IsVerified (start_test x payload image run task db)
  unfolding start_test passes_due insert_test new_test_run is_passed
  start_test-IsVerified x payload image run task =
      Ends-bind
        (require (not (exists (test_of_run run.id) db.tests))
          (implementation_conflict test_already_exists))
        _
        λ _ _. Ends-bind (ready_patch task run (get patch_key run.id db.patches)) _ λ patch ready.
          Ends-bind
            (require (patch.diff_sha256 == payload.expected_patch_sha256)
              (implementation_conflict patch_version_conflict))
            _
            λ _ _. Ends-bind (insert_test _ _) _ λ tests inserted. Ends-ok _ _ (
              run_changed db.implementation_runs db.patches tests
                (subst (λ ts. Tested db.implementation_runs db.patches ts)
                  (sym (insert-ok _ _ _ tests inserted).0)
                  (test_added db.implementation_runs db.patches db.tests h _ refl (
                    stored-count run.id db.patches patch
                      (ready_patch-stored task run patch ready))))
                run.id (run_status_row RunStatus.test_pending) (λ r. refl) (λ r. refl))

  pub create_test-IsVerified :
      (x t : ℕ) (payload : TestRunCreate) (image : String)
      → Ends IsVerified (create_test x t payload image db)
  unfolding create_test
  create_test-IsVerified x t payload image = Ends-bind (lock_task t db) _ λ task _.
      Ends-bind (some_or implementation_not_ready (find (impl_of_task t) db.implementation_runs)) _
        λ run _.
          Ends-option (find (test_key_of run.id payload.idempotency_key) db.tests) _ _
            (λ _. start_test-IsVerified x payload image run task)
            λ existing _.
              Ends-bind
                (require (existing.expected_patch_sha256 == payload.expected_patch_sha256)
                  (implementation_conflict test_request_mismatch))
                _ λ _ _. Ends-ok _ _ h

  lock_test-ok :
      (x : ℕ) (test : TestRun) (run : ImplementationRun) (task : Task)
      → lock_test_run_task x db ≡ ok (test, run, task)
      → (get test_key x db.tests ≡ some test) × (run.id ≡ test.implementation_run_id)
  unfolding lock_test_run_task lock_run_and_task
  lock_test-ok x test run task e = ground (
    arith,
    find_sound (λ (r : ImplementationRun). r.id == test.implementation_run_id)
        db.implementation_runs run,
  )

  pub mark_testing-IsVerified : (x : ℕ) → Ends IsVerified (mark_testing x db)
  unfolding mark_testing passes_due is_passed is_clean test_is_pending
  mark_testing-IsVerified x = Ends-bind (lock_test_run_task x db) _ λ (test, run, task) locked.
      Ends-if (test_is_running test.status) _ _ (λ _. Ends-ok _ _ h)
        λ _.
          Ends-bind
            (require (test_is_pending test.status && run_is_test_pending run.status)
              (implementation_conflict test_state_conflict))
            _
            λ u waiting. Ends-ok _ _ (
              run_changed db.implementation_runs db.patches _
                (test_changed db.implementation_runs db.patches db.tests h x running_row test
                  (lock_test-ok x test run task locked).0
                  (unpassed test.status (run_is_test_pending run.status) u waiting) (λ y. refl)
                  (λ y. refl) (λ y. refl))
                run.id (run_status_row RunStatus.testing) (λ r. refl) (λ r. refl))
    where
      unpassed :
          (s : TestStatus) (b : Bool) (u : Unit {0})
          → require (test_is_pending s && b) (implementation_conflict test_state_conflict) ≡ ok u
          → is_passed s ≡ false
      unpassed s b u e = ground arith

  pub persist_test_result-IsVerified :
      (now x : ℕ) (result : TestExecutionResult)
      → Ends IsVerified (persist_test_result now x result db)
  unfolding persist_test_result
  persist_test_result-IsVerified now x result =
      Ends-bind (lock_test_run_task x db) _ λ (test, run, task) locked.
        Ends-if (test_is_finished test.status) _ _ (λ _. Ends-ok _ _ h)
          λ _.
            Ends-bind
              (require (test_is_running test.status) (implementation_conflict test_state_conflict))
              _
              λ u running.
                let (found, own) = lock_test-ok x test run task locked in
                Ends-ok _ _ (
                  subst
                    (λ k.
                      Tested
                        (modify run_key k
                          (run_status_row (
                            if test_passed result then RunStatus.tested else RunStatus.test_failed))
                          db.implementation_runs)
                        db.patches (modify test_key x (finished_row now result) db.tests))
                    (sym own)
                    (result_recorded db.implementation_runs db.patches db.tests now x result test h
                      found (require-ok _ _ u running)))

  pub fail-IsVerified :
      (r : ℕ) (code message : String) (blocked : Bool)
      → Ends IsVerified (fail r code message blocked db)
  unfolding fail passes_due
  fail-IsVerified r code message blocked = Ends-bind (lock_run_and_task r db) _ λ (run, task) _.
      Ends-if (run_is_finished run.status) _ _ (λ _. Ends-ok _ _ h)
        λ _. Ends-ok _ _ (
          run_changed db.implementation_runs db.patches db.tests h r (fail_row blocked code message)
            (λ x. refl) (λ x. free blocked))
    where
      free :
          (b : Bool) → passes_due (if b then RunStatus.recovery_blocked else RunStatus.failed) ≡ 0
      free b = ground arith

-- ===== src/System/Verified/Reach.antt =====
-- The runs, patches and tests that requests and database faults can reach from an empty database.
use issue_pilot.Prelude.{
  ℕ, ◌≤◌, ◌≡◌, some, List, [], ◌∷◌, Bool, true, false, not, ◌&&◌, ◌||◌, ◌==◌, All, arith,
}
use issue_pilot.Prelude.Table.{count, get, All-find}
use issue_pilot.Status.{RunStatus}
use issue_pilot.Db.{Db, ImplementationRun, TestRun, empty, run_key}
use issue_pilot.Transaction.{transaction-Ends}
use issue_pilot.System.{
  Request, create_task, set_status, set_failure_if_status_in, scan, persist_planning,
  create_decision, apply_terminal_decision, persist_revision, fail_decision, create_run,
  set_generating, persist_patch, create_test, mark_testing, persist_test_result, fail, step, run,
}
use issue_pilot.System.Verified.{IsVerified, is_passed, is_clean, passes_due, passed_of}
use issue_pilot.System.Verified.Frames
use issue_pilot.System.Verified.Steps

pub step-IsVerified :
    (fault : Bool) (request : Request) (db : Db)
    → IsVerified db
    → IsVerified (step fault request db)
unfolding step
step-IsVerified f (create_task t url issue) db h =
    transaction-Ends IsVerified f _ db h (Frames.create_task-IsVerified db h t url issue)
step-IsVerified f (set_status t s code message) db h =
    transaction-Ends IsVerified f _ db h (Frames.set_task_status-IsVerified db h t s code message)
step-IsVerified f (set_failure_if_status_in t e code message) db h =
    transaction-Ends IsVerified f _ db h
      (Frames.set_failure_if_status_in-IsVerified db h t e code message)
step-IsVerified f (scan snapshots indexes retrievals) db h = h
step-IsVerified f (persist_planning r p bundle analysis plan provider model version) db h =
    transaction-Ends IsVerified f _ db h
      (Frames.persist_planning-IsVerified db h r p bundle analysis plan provider model version)
step-IsVerified f (create_decision d t payload) db h =
    transaction-Ends IsVerified f _ db h (Frames.create_decision-IsVerified db h d t payload)
step-IsVerified f (apply_terminal_decision now d action) db h =
    transaction-Ends IsVerified f _ db h
      (Frames.apply_terminal_decision-IsVerified db h now d action)
step-IsVerified f (persist_revision p now d bundle plan feedback) db h =
    transaction-Ends IsVerified f _ db h
      (Frames.persist_revision-IsVerified db h p now d bundle plan feedback)
step-IsVerified f (fail_decision d s code message) db h =
    transaction-Ends IsVerified f _ db h (Frames.fail_decision-IsVerified db h d s code message)
step-IsVerified f (create_run r t payload provider model) db h =
    transaction-Ends IsVerified f _ db h
      (Steps.create_run-IsVerified db h r t payload provider model)
step-IsVerified f (set_generating r relpath) db h =
    transaction-Ends IsVerified f _ db h (Steps.set_generating-IsVerified db h r relpath)
step-IsVerified f (persist_patch r draft) db h =
    transaction-Ends IsVerified f _ db h (Steps.persist_patch-IsVerified db h r draft)
step-IsVerified f (create_test x t payload image) db h =
    transaction-Ends IsVerified f _ db h (Steps.create_test-IsVerified db h x t payload image)
step-IsVerified f (mark_testing x) db h =
    transaction-Ends IsVerified f _ db h (Steps.mark_testing-IsVerified db h x)
step-IsVerified f (persist_test_result now x result) db h =
    transaction-Ends IsVerified f _ db h (Steps.persist_test_result-IsVerified db h now x result)
step-IsVerified f (fail r code message blocked) db h =
    transaction-Ends IsVerified f _ db h (Steps.fail-IsVerified db h r code message blocked)

pub run-IsVerified :
    (requests : List (Bool × Request)) (db : Db) → IsVerified db → IsVerified (run requests db)
unfolding run
run-IsVerified [] db h = h
run-IsVerified ((fault, request) ∷ rest) db h =
    run-IsVerified rest (step fault request db) (step-IsVerified fault request db h)

empty-IsVerified : IsVerified empty
empty-IsVerified = record { honest = tt; patched = tt; proven = tt }

-- Some test of the run passed.
abbrev pub has_clean_test : ℕ → List TestRun → Bool
has_clean_test r [] = false
has_clean_test r (x ∷ tests) =
    (x.implementation_run_id == r) && is_clean x || has_clean_test r tests

clean-counted :
    (r : ℕ) (tests : List TestRun)
    → All (λ x. (not (is_passed x.status) || is_clean x) ≡ true) tests
    → 1 ≤ count (passed_of r) tests
    → has_clean_test r tests ≡ true
unfolding count
clean-counted r [] honest one = absurd (omega (arith, one))
clean-counted r (x ∷ tests) (fair, honest) one = ground (arith, fair, clean-counted r tests honest)

module _ (requests : List (Bool × Request)) where
  -- Whatever is requested, in any order and with any database faults: an implementation run that is
  -- marked as tested has a test run with exit code 0 that did not time out.
  pub tested_has_clean_test :
      (id : ℕ) (r : ImplementationRun)
      → get run_key id (run requests empty).implementation_runs ≡ some r
      → r.status ≡ RunStatus.tested
      → has_clean_test r.id (run requests empty).tests ≡ true
  unfolding passes_due
  tested_has_clean_test id r found tested =
      clean-counted r.id (run requests empty).tests
        (run-IsVerified requests empty empty-IsVerified).honest
        (ground (
          arith,
          All-find _ (λ x. x.id == id) _ r (run-IsVerified requests empty empty-IsVerified).proven
              found,
        ))

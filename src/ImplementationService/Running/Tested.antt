-- ===== src/ImplementationService/Running/Tested.antt =====
-- On what `run_test` of backend/app/services/implementation_service.py tests.
use issue_pilot.Prelude.{
  ℕ, ◌≡◌, ◌⊎◌, inl, inr, refl, sym, ap, ◌∙◌, String, List, [], Bool, true, false, ◌==◌, ==_iff,
  arith,
}
use issue_pilot.Schemas.{PatchArtifactDraft, TestExecutionResult}
use issue_pilot.Result.{Result, ok, err}
use issue_pilot.Db.{Db}
use issue_pilot.Transaction.{transaction, settle}
use issue_pilot.ImplementationStore.{
  TestContext, ImplementationContext, load_test_context, load_context, mark_testing,
  persist_test_result,
}
use issue_pilot.PatchService
use issue_pilot.PatchService.{PatchLimits, Attempt, Worktree, returned, raised, inspect}
use issue_pilot.TestRunner
use issue_pilot.TestRunner.{DockerTestRunner, History, Answer}
use issue_pilot.ImplementationService.Failures
use issue_pilot.ImplementationService.Failures.{
  Service, ServiceError, failed, check, from_store, ◌>>=◌, ◌>>◌, inconsistent,
}
use issue_pilot.ImplementationService.Returned.{Holds, Holds-bind, Holds-check, from_store_done}
use issue_pilot.ImplementationService.Source.{
  Host, verify_source, resolve_for, relpath_or_empty, context_paths,
}
use issue_pilot.ImplementationService.Running.{
  World, from_patch, from_runner, ◌then_with◌, check_test, execute_test, run_checked, run_test,
}

from_patch_done :
    {A : Type 0} (r : Attempt A) (a : A) → from_patch r ≡ Failures.done a → r ≡ returned a
unfolding from_patch
from_patch_done (returned b) a h =
    ap (λ s. elim s [ Failures.done c ↦ returned c | failed _ ↦ returned b ]) h
from_patch_done (raised error) a h = ground (arith, h)

settled :
    {A : Type 0} (a : A) (before : Db) (r : Result (A × Db))
    → (settle before r).0 ≡ ok a
    → r ≡ ok (a, (settle before r).1)
settled a before (ok (b, after)) k =
    ap (λ s. elim s [ ok c ↦ ok (c, after) | err _ ↦ ok (b, after) ]) k
settled a before (err error) k = ground (arith, k)

transaction_ok :
    {A : Type 0} (fault : Bool) (body : Db → Result (A × Db)) (db : Db) (a : A)
    → (transaction fault body db).0 ≡ ok a
    → body db ≡ ok (a, (transaction fault body db).1)
unfolding transaction
transaction_ok true body db a h = ground (arith, h)
transaction_ok false body db a h = settled a db (body db) h

module _ (host : Host) (git : PatchService.Platform) (limits : PatchLimits) where
  -- The stored patch of the test is the one that lies in the worktree.
  pub record Checked (test_id : ℕ) (db : Db) (worktree : Worktree) (directory : String)
      : Type 0 where
    pub context : TestContext
    pub implementation : ImplementationContext
    pub allowed : List String
    pub artifact : PatchArtifactDraft
    pub loaded : load_test_context test_id db ≡ ok context
    pub run_loaded : load_context context.run.id db ≡ ok implementation
    pub source : verify_source host implementation ≡ Failures.done tt
    pub resolved :
        resolve_for host context.task.id context.run.id
          (relpath_or_empty context.run.worktree_relpath)
        ≡ Failures.done directory
    pub scope : context_paths host implementation ≡ Failures.done allowed
    pub inspected : inspect git limits worktree allowed [] ≡ returned artifact
    pub same_patch : artifact.diff_sha256 ≡ context.patch.diff_sha256

  check_test-Checked :
      (test_id : ℕ) (db : Db) (worktree : Worktree)
      → Holds (Checked test_id db worktree) (check_test host git limits test_id db worktree)
  unfolding check_test
  check_test-Checked test_id db worktree =
      let P = Checked test_id db worktree in
      Holds-bind P (from_store (load_test_context test_id db)) _ (λ context l.
        Holds-bind P (from_store (load_context context.run.id db)) _ (λ implementation k.
          Holds-bind P (verify_source host implementation) _ (λ _ v.
            Holds-bind P
              (resolve_for host context.task.id context.run.id
                (relpath_or_empty context.run.worktree_relpath))
              _
              (λ directory d. Holds-bind P (context_paths host implementation) _ (λ allowed a.
                Holds-bind P (from_patch (inspect git limits worktree allowed [])) _ (λ artifact i.
                  Holds-check P (artifact.diff_sha256 == context.patch.diff_sha256) inconsistent
                    (Failures.done directory)
                    (λ same. record {
                      context = context;
                      implementation = implementation;
                      allowed = allowed;
                      artifact = artifact;
                      loaded = from_store_done (load_test_context test_id db) context l;
                      run_loaded =
                          from_store_done (load_context context.run.id db) implementation k;
                      source = v;
                      resolved = d;
                      scope = a;
                      inspected =
                          from_patch_done (inspect git limits worktree allowed []) artifact i;
                      same_patch = (==_iff artifact.diff_sha256 context.patch.diff_sha256).0 same;
                    })))))))

  module _ (docker : TestRunner.Platform) (runner : DockerTestRunner) where
    guarded :
        (mark_fault persist_fault : Bool) (now elapsed test_id : ℕ) (world : World)
        (checks : Service String)
        → Holds (Checked test_id world.db world.worktree) checks
        → (((checks, world)
              then_with run_checked host git limits docker runner mark_fault persist_fault now
                  elapsed test_id).1
            ≡ world)
          ⊎ ((directory : String) × Checked test_id world.db world.worktree directory)
    guarded mark_fault persist_fault now elapsed test_id world (failed error) h = inl refl
    guarded mark_fault persist_fault now elapsed test_id world (Failures.done directory) h =
        inr (directory, h)

    -- However `run_test` ends, either the database, the worktree and the commands given to Docker are
    -- as before, or the records of the run agree with its repository, its worktree is at its own
    -- path, and the diff of the worktree, all of whose changed paths the plan allows, has the
    -- hash of the patch that the test was approved for.
    pub run_test_guarded :
        (mark_fault persist_fault : Bool) (now elapsed test_id : ℕ) (world : World)
        → ((run_test host git limits docker runner mark_fault persist_fault now elapsed test_id
              world).1
            ≡ world)
          ⊎ ((directory : String) × Checked test_id world.db world.worktree directory)
    unfolding run_test
    run_test_guarded mark_fault persist_fault now elapsed test_id world =
        guarded mark_fault persist_fault now elapsed test_id world
          (check_test host git limits test_id world.db world.worktree)
          (check_test-Checked test_id world.db world.worktree)

    -- What happened when `run_test` returned.
    pub record Tested (now elapsed test_id : ℕ) (world : World) (directory : String) (after : World)
        : Type 0 where
      pub marked : Db
      pub result : TestExecutionResult
      pub was_marked : mark_testing test_id world.db ≡ ok (tt, marked)
      pub was_run :
          TestRunner.run docker runner directory test_id elapsed world.history
          ≡ (TestRunner.done result, after.history)
      pub was_stored : persist_test_result now test_id result marked ≡ ok (tt, after.db)
      pub same_worktree : after.worktree ≡ world.worktree

    abbrev EndsIn : World → Service (Unit {0}) × World → Type 0
    EndsIn after r = r ≡ (Failures.done tt, after)

    -- The end of `run_checked`, by what the last transaction gave.
    stored_Tested :
        (fault : Bool) (now elapsed test_id : ℕ) (world after : World) (directory : String)
        (marked : Db) (result : TestExecutionResult) (history : History)
        → mark_testing test_id world.db ≡ ok (tt, marked)
        → TestRunner.run docker runner directory test_id elapsed world.history
          ≡ (TestRunner.done result, history)
        → (stored : Result (Unit {0}) × Db)
        → transaction fault (persist_test_result now test_id result) marked ≡ stored
        → EndsIn after (
          from_store stored.0,
          record { db = stored.1; worktree = world.worktree; history = history },
        )
        → Tested now elapsed test_id world directory after
    stored_Tested fault now elapsed test_id world after directory marked result history m r
          (ok _, db) t e =
        record {
          marked = marked;
          result = result;
          was_marked = m;
          was_run = r ∙ ap (λ p. (TestRunner.done result, p.1.history)) e;
          was_stored =
              transaction_ok fault (persist_test_result now test_id result) marked tt
                (ap (λ p. p.0) t)
              ∙ ap (λ d. ok (tt, d)) (ap (λ p. p.1) t ∙ ap (λ p. p.1.db) e);
          same_worktree = sym (ap (λ p. p.1.worktree) e);
        }
    stored_Tested fault now elapsed test_id world after directory marked result history m r
          (err error, db) t e =
        ground (arith, ap (λ p. p.0) e)

    ran_Tested :
        (fault : Bool) (now elapsed test_id : ℕ) (world after : World) (directory : String)
        (marked : Db)
        → mark_testing test_id world.db ≡ ok (tt, marked)
        → (ran : Answer TestExecutionResult × History)
        → TestRunner.run docker runner directory test_id elapsed world.history ≡ ran
        → EndsIn after (
            (from_runner ran.0, record { db = marked; worktree = world.worktree; history = ran.1 })
            then_with λ result here.
                let stored = transaction fault (persist_test_result now test_id result) here.db in
                (from_store stored.0, record here { db = stored.1 }))
        → Tested now elapsed test_id world directory after
    unfolding from_runner
    ran_Tested fault now elapsed test_id world after directory marked m
          (TestRunner.done result, history) r e =
        stored_Tested fault now elapsed test_id world after directory marked result history m r
          (transaction fault (persist_test_result now test_id result) marked) refl e
    ran_Tested fault now elapsed test_id world after directory marked m
          (TestRunner.unavailable, history) r e =
        ground (arith, ap (λ p. p.0) e)
    ran_Tested fault now elapsed test_id world after directory marked m
          (TestRunner.system_error, history) r e =
        ground (arith, ap (λ p. p.0) e)

    marked_Tested :
        (mark_fault fault : Bool) (now elapsed test_id : ℕ) (world after : World)
        (directory : String)
        → (marked : Result (Unit {0}) × Db)
        → transaction mark_fault (mark_testing test_id) world.db ≡ marked
        → EndsIn after (
            (from_store marked.0, record world { db = marked.1 })
            then_with (λ _. execute_test host git limits docker runner directory test_id elapsed)
            then_with λ result here.
                let stored = transaction fault (persist_test_result now test_id result) here.db in
                (from_store stored.0, record here { db = stored.1 }))
        → Tested now elapsed test_id world directory after
    unfolding execute_test
    marked_Tested mark_fault fault now elapsed test_id world after directory (ok _, db) t e =
        ran_Tested fault now elapsed test_id world after directory db
          (transaction_ok mark_fault (mark_testing test_id) world.db tt (ap (λ p. p.0) t)
            ∙ ap (λ d. ok (tt, d)) (ap (λ p. p.1) t))
          (TestRunner.run docker runner directory test_id elapsed world.history) refl e
    marked_Tested mark_fault fault now elapsed test_id world after directory (err error, db) t e =
        ground (arith, ap (λ p. p.0) e)

    Checked-Tested :
        (mark_fault persist_fault : Bool) (now elapsed test_id : ℕ) (world after : World)
        (checks : Service String)
        → Holds (Checked test_id world.db world.worktree) checks
        → EndsIn after (
            (checks, world)
            then_with run_checked host git limits docker runner mark_fault persist_fault now elapsed
                test_id)
        → (directory : String) × Checked test_id world.db world.worktree directory
          × Tested now elapsed test_id world directory after
    unfolding run_checked
    Checked-Tested mark_fault persist_fault now elapsed test_id world after (failed error) h e =
        ground (arith, ap (λ p. p.0) e)
    Checked-Tested mark_fault persist_fault now elapsed test_id world after
          (Failures.done directory) h e =
        (
          directory,
          h,
          marked_Tested mark_fault persist_fault now elapsed test_id world after directory
              (transaction mark_fault (mark_testing test_id) world.db) refl e,
        )

    -- If `run_test` returns, then the checks on the stored patch held, the test was marked as
    -- running, the runner returned a result for the directory of the run's worktree, exactly this
    -- result was stored, and the worktree is as before.
    pub run_test-Tested :
        (mark_fault persist_fault : Bool) (now elapsed test_id : ℕ) (world after : World)
        → run_test host git limits docker runner mark_fault persist_fault now elapsed test_id world
          ≡ (Failures.done tt, after)
        → (directory : String) × Checked test_id world.db world.worktree directory
          × Tested now elapsed test_id world directory after
    unfolding run_test
    run_test-Tested mark_fault persist_fault now elapsed test_id world after e =
        Checked-Tested mark_fault persist_fault now elapsed test_id world after
          (check_test host git limits test_id world.db world.worktree)
          (check_test-Checked test_id world.db world.worktree) e

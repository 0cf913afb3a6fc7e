-- ===== src/ImplementationService/Running.antt =====
-- `run_test` and `apply_patch` of backend/app/services/implementation_service.py: the store, the worktree, the
-- patch service and the test runner together. A fault of the database is an argument of each
-- write; a fault of a load, which changes nothing, is left out.
pub mod Tested
pub mod Examples
use issue_pilot.Prelude.{
  ℕ, String, Option, none, some, List, [], Bool, true, false, ◌==◌, if◌then◌else◌,
}
use issue_pilot.Schemas.{PatchArtifactDraft, TestExecutionResult}
use issue_pilot.Db.{Db}
use issue_pilot.Transaction.{transaction}
use issue_pilot.ImplementationStore.{
  load_test_context, load_context, load_response_by_run, mark_testing, persist_test_result,
  persist_patch,
}
use issue_pilot.PatchService
use issue_pilot.PatchService.{
  PatchLimits, PatchError, Attempt, Worktree, FileReplacementDraft, returned, raised, inspect,
  apply,
}
use issue_pilot.TestRunner
use issue_pilot.TestRunner.{DockerTestRunner, History, Answer, done, unavailable, system_error}
use issue_pilot.ImplementationService.Failures
use issue_pilot.ImplementationService.Failures.{
  Service, ServiceError, failed, check, from_store, ◌>>=◌, ◌>>◌, inconsistent, patch_validation,
  source_changed, git_error, other_error, value_error, runner_unavailable,
}
use issue_pilot.ImplementationService.Source.{
  Host, verify_source, resolve_for, relpath_or_empty, require_worktree, context_paths,
}

-- A UnicodeDecodeError is a ValueError.
unfoldable pub patch_error : PatchError → ServiceError
patch_error PatchError.patch_invalid = patch_validation
patch_error PatchError.source_changed = source_changed
patch_error PatchError.git_failed = git_error
patch_error PatchError.os_failed = other_error
patch_error PatchError.undecodable = value_error

unfoldable pub from_patch {ℓ} : {A : Type ℓ} → Attempt A → Service A
from_patch (returned a) = Failures.done a
from_patch (raised error) = failed (patch_error error)

unfoldable pub from_runner {ℓ} : {A : Type ℓ} → Answer A → Service A
from_runner (done a) = Failures.done a
from_runner unavailable = failed runner_unavailable
from_runner system_error = failed other_error

-- What the methods change.
pub record World : Type 0 where
  pub db : Db
  pub worktree : Worktree
  pub history : History

-- The next statement, unless an exception was raised.
infixl 4 ◌then_with◌
abbrev pub ◌then_with◌ {ℓ κ} :
    {A : Type ℓ} {B : Type κ}
    → Service A × World
    → (A → World → Service B × World)
    → Service B × World
(Failures.done a, world) then_with next = next a world
(failed error, world) then_with next = (failed error, world)

module _ (host : Host) (git : PatchService.Platform) (limits : PatchLimits) where
  -- `run_test` up to `mark_testing`, which changes nothing; returns the directory of the worktree.
  unfoldable pub check_test : (test_id : ℕ) → Db → Worktree → Service String
  check_test test_id db worktree = do
    context ← from_store (load_test_context test_id db)
    implementation ← from_store (load_context context.run.id db)
    verify_source host implementation
    directory ←
        resolve_for host context.task.id context.run.id
          (relpath_or_empty context.run.worktree_relpath)
    allowed ← context_paths host implementation
    artifact ← from_patch (inspect git limits worktree allowed [])
    check (artifact.diff_sha256 == context.patch.diff_sha256) inconsistent
    Failures.done directory

  -- `apply_patch` for a run without a stored patch.
  unfoldable pub apply_new_patch :
      (fault : Bool)
      → (run_id : ℕ) → List FileReplacementDraft
      → (allowed : List String) → World
      → Service ℕ × World
  apply_new_patch fault run_id replacements allowed world =
      let applied = apply git limits allowed replacements world.worktree in
      (from_patch applied.0, record world { worktree = applied.1 }) then_with λ artifact here.
      let stored = transaction fault (persist_patch run_id artifact) here.db in
      (from_store stored.0, record here { db = stored.1 })

  -- What `apply_patch` checks for a run with a stored patch, and returns.
  unfoldable pub check_patch : (run_id sha256 : ℕ) → Db → Worktree → Service ℕ
  check_patch run_id sha256 db worktree = do
    context ← from_store (load_context run_id db)
    directory ← require_worktree host context
    allowed ← context_paths host context
    artifact ← from_patch (inspect git limits worktree allowed [])
    check (artifact.diff_sha256 == sha256) inconsistent
    Failures.done sha256

  -- The paths that a new patch of the run may replace, after the checks before `apply`.
  unfoldable pub check_new_patch : (run_id : ℕ) → Db → Service (List String)
  check_new_patch run_id db = do
    context ← from_store (load_context run_id db)
    verify_source host context
    directory ← require_worktree host context
    context_paths host context

  unfoldable pub apply_patch :
      (fault : Bool) → (run_id : ℕ) → List FileReplacementDraft → World → Service ℕ × World
  apply_patch fault run_id replacements world =
      (from_store (load_response_by_run run_id world.db), world) then_with λ response here.
      elim response.patch [
        | some stored ↦ (check_patch run_id stored.diff_sha256 here.db here.worktree, here)
        | none ↦
            (check_new_patch run_id here.db, here)
            then_with apply_new_patch fault run_id replacements
      ]

  module _ (docker : TestRunner.Platform) (runner : DockerTestRunner) where
    unfoldable pub execute_test :
        (directory : String) → (test_id elapsed : ℕ) → World → Service TestExecutionResult × World
    execute_test directory test_id elapsed world =
        let executed = TestRunner.run docker runner directory test_id elapsed world.history in
        (from_runner executed.0, record world { history = executed.1 })

    -- `run_test` from `mark_testing`.
    unfoldable pub run_checked :
        (mark_fault persist_fault : Bool)
        → (now elapsed test_id : ℕ) → (directory : String) → World
        → Service (Unit {0}) × World
    run_checked mark_fault persist_fault now elapsed test_id directory world =
        let marked = transaction mark_fault (mark_testing test_id) world.db in
        (from_store marked.0, record world { db = marked.1 })
        then_with (λ _. execute_test directory test_id elapsed)
        then_with λ result here.
            let stored =
              transaction persist_fault (persist_test_result now test_id result) here.db in
            (from_store stored.0, record here { db = stored.1 })

    unfoldable pub run_test :
        (mark_fault persist_fault : Bool)
        → (now elapsed test_id : ℕ) → World
        → Service (Unit {0}) × World
    run_test mark_fault persist_fault now elapsed test_id world =
        (check_test test_id world.db world.worktree, world)
        then_with run_checked mark_fault persist_fault now elapsed test_id

-- ===== src/ImplementationService/Requests.antt =====
-- `submit_implementation`, `submit_test`, `get_implementation` and `load_bundle` of
-- backend/app/services/implementation_service.py, and `prepare` of implementation_workspace.py.
use issue_pilot.Prelude.{ℕ, String, Option, none, some, List, [], Bool, ◌==◌, if◌then◌else◌}
use issue_pilot.Status.{run_can_generate}
use issue_pilot.Schemas.{ImplementationCreate, TestRunCreate, ImplementationPlanDraft}
use issue_pilot.Result.{
  implementation_not_ready, implementation_conflict, implementation_state_conflict,
}
use issue_pilot.Db.{Db}
use issue_pilot.Transaction.{transaction}
use issue_pilot.ImplementationStore.{
  ImplementationResponse, ImplementationContext, create_run, create_test, load_response,
  load_context, set_generating,
}
use issue_pilot.PatchService
use issue_pilot.PatchService.{Bytes, PatchLimits, Worktree, inspect}
use issue_pilot.ImplementationService.Sources.{Found, ImplementationSourceFile, load_source_files}
use issue_pilot.ImplementationService.Failures.{
  Service, done, failed, check, from_store, ◌>>=◌, ◌>>◌, inconsistent, disabled,
  unsafe_workspace_path, scope_invalid, store_error,
}
use issue_pilot.ImplementationService.Source.{Host, verify_source, require_worktree, context_paths}
use issue_pilot.ImplementationService.Running.{from_patch}

pub record ImplementationBundle : Type 0 where
  pub implementation_run_id : ℕ
  pub issue : String
  pub commit_sha : ℕ
  pub plan_version : ℕ
  pub plan : ImplementationPlanDraft
  pub files : List ImplementationSourceFile

module _ (host : Host) where
  unfoldable pub submit_implementation :
      (enabled fault : Bool)
      → (run_id t : ℕ) → ImplementationCreate
      → Db
      → Service ImplementationResponse × Db
  submit_implementation enabled fault run_id t payload db =
      if enabled
      then (let stored =
            transaction fault (create_run run_id t payload host.provider_name host.provider_model)
              db in
          (from_store stored.0, stored.1))
      else (failed disabled, db)

  unfoldable pub submit_test :
      (image : String)
      → (enabled fault : Bool) → (test_id t : ℕ) → TestRunCreate
      → Db
      → Service ImplementationResponse × Db
  submit_test image enabled fault test_id t payload db =
      if enabled
      then (let stored = transaction fault (create_test test_id t payload image) db in
          (from_store stored.0, stored.1))
      else (failed disabled, db)

  -- `prepare`, with whether the destination exists, and the call of `git worktree add`.
  unfoldable pub prepare :
      (contained exists : Bool)
      → (add_worktree : Service (Unit {0})) → (task_id run_id commit_sha : ℕ) → Service String
  prepare contained exists add_worktree task_id run_id commit_sha = do
    let destination = host.run_path task_id run_id
    check contained unsafe_workspace_path
    if exists then done tt else add_worktree
    head ← host.head_sha destination
    check (head == commit_sha) unsafe_workspace_path
    done destination

  -- The context of a run whose bundle may be loaded, and its checked source.
  unfoldable pub check_bundle : (run_id : ℕ) → Db → Service ImplementationContext
  check_bundle run_id db = do
    context ← from_store (load_context run_id db)
    check (run_can_generate context.run.status)
        (store_error (implementation_conflict implementation_state_conflict))
    verify_source host context
    done context

  module _ (look : String → Found) (decode : Bytes → Option String) (sha256 : Bytes → ℕ) where
    unfoldable pub source_bundle : ImplementationContext → Service ImplementationBundle
    source_bundle context = do
      allowed ← context_paths host context
      files ← or_scope_error (load_source_files look decode sha256 allowed)
      done (record {
        implementation_run_id = context.run.id;
        issue = context.task.issue_text;
        commit_sha = context.run.base_commit;
        plan_version = context.plan.version;
        plan = context.plan.draft;
        files = files;
      })
      where
        or_scope_error : {A : Type 0} → Option A → Service A
        or_scope_error none = failed scope_invalid
        or_scope_error (some a) = done a

    -- `load_bundle` from the prepared worktree on: the sources are read after `set_generating`.
    unfoldable pub bundle_after :
        (fault : Bool)
        → (relative_path : String → String) → Service (ImplementationContext × String)
        → Db
        → Service ImplementationBundle × Db
    bundle_after fault relative_path (failed error) db = (failed error, db)
    bundle_after fault relative_path (done (context, worktree)) db =
        let stored =
          transaction fault (set_generating context.run.id (relative_path worktree)) db in
        (from_store stored.0 >> source_bundle context, stored.1)

    unfoldable pub load_bundle :
        (contained exists fault : Bool)
        → (add_worktree : Service (Unit {0})) → (relative_path : String → String) → (run_id : ℕ)
        → Db
        → Service ImplementationBundle × Db
    load_bundle contained exists fault add_worktree relative_path run_id db =
        bundle_after fault relative_path prepared db
      where
        prepared : Service (ImplementationContext × String)
        prepared = do
          context ← check_bundle run_id db
          source ← host.repository_path context.task.id
          worktree ←
              prepare contained exists add_worktree context.task.id run_id context.run.base_commit
          done (context, worktree)

  module _ (git : PatchService.Platform) (limits : PatchLimits) where
    -- What `get_implementation` checks of the response before it returns it.
    unfoldable pub check_response : Db → Worktree → ImplementationResponse → Service (Unit {0})
    check_response db worktree response = do
      context ← from_store (load_context response.run.id db)
      verify_source host context
      elim response.patch [
        | none ↦ done tt
        | some patch ↦ do
          directory ← require_worktree host context
          allowed ← context_paths host context
          artifact ← from_patch (inspect git limits worktree allowed [])
          check (artifact.diff_sha256 == patch.diff_sha256) inconsistent
      ]

    unfoldable pub get_implementation : (t : ℕ) → Db → Worktree → Service ImplementationResponse
    get_implementation t db worktree = do
      response ← from_store (load_response t db)
      elim response [
        | none ↦ failed (store_error implementation_not_ready)
        | some found ↦ check_response db worktree found >> done found
      ]

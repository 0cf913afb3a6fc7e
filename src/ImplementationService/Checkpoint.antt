-- ===== src/ImplementationService/Checkpoint.antt =====
-- `_resume_test`, `_verify_checkpoint_values`, `_verify_initial_checkpoint`, `_verify_initial_worktree` and
-- `_require_clean_worktree` of backend/app/services/implementation_service.py. The graph's
-- checkpointer and its runs are parameters, on a state of their own that holds the database.
pub mod Resumed
mod Examples
use issue_pilot.Prelude.{
  ℕ, String, Option, none, some, List, [], ◌∷◌, Bool, true, false, not, ◌&&◌, ◌||◌, ◌==◌, str_eq,
  if◌then◌else◌,
}
use issue_pilot.Status.{RunStatus, run_can_generate, run_is_generating}
use issue_pilot.Db.{Db}
use issue_pilot.ImplementationStore.{ImplementationContext, load_context}
use issue_pilot.ImplementationService.Failures.{
  Service, ServiceError, done, failed, check, from_store, ◌>>=◌, ◌>>◌, inconsistent, git_error,
}
use issue_pilot.ImplementationService.Source.{Host, verify_source, resolve_for, relpath_or_empty}

-- `snapshot.values`; a missing key is `none`.
pub record CheckpointValues : Type 0 where
  pub implementation_run_id : Option ℕ
  pub commit_sha : Option ℕ
  pub plan_version : Option ℕ
  pub patch_sha256 : Option ℕ

-- The nodes that a snapshot names as next.
pub data Node : Type 0 where
  load_context_node generate_replacements_node apply_patch_node : Node
  await_test_approval_node run_tests_node : Node

pub record Snapshot : Type 0 where
  pub next : List Node
  pub values : CheckpointValues

-- The input of `ainvoke`: None, or the Command that `_resume_test` builds.
pub data Command : Type 0 where
  go_on : Command
  run_tests : (test_run_id patch_sha256 : ℕ) → Command

pub record Graph (W : Type 0) : Type 0 where
  pub db_of : W → Db
  pub has_checkpoint : W → Service Bool
  pub get_state : W → Service Snapshot
  pub invoke : Command → W → Service (Unit {0}) × W

-- `values.get(key) == value`
abbrev pub holds_value : Option ℕ → ℕ → Bool
holds_value none n = false
holds_value (some m) n = m == n

unfoldable pub verify_checkpoint_values :
    CheckpointValues → ImplementationContext → Service (Unit {0})
verify_checkpoint_values values context =
    check
      (holds_value values.implementation_run_id context.run.id
        && (holds_value values.commit_sha context.run.base_commit
            && holds_value values.plan_version context.run.plan_version))
      inconsistent

unfoldable pub run_is_pending : RunStatus → Bool
run_is_pending RunStatus.pending = true
run_is_pending _ = false

unfoldable pub is_next_load : List Node → Bool
is_next_load (load_context_node ∷ []) = true
is_next_load _ = false

unfoldable pub is_next_work : List Node → Bool
is_next_work (generate_replacements_node ∷ []) = true
is_next_work (apply_patch_node ∷ []) = true
is_next_work _ = false

unfoldable pub is_next_apply : List Node → Bool
is_next_apply (apply_patch_node ∷ []) = true
is_next_apply _ = false

unfoldable pub is_next_await : List Node → Bool
is_next_await (await_test_approval_node ∷ []) = true
is_next_await _ = false

unfoldable pub verify_initial_checkpoint : Snapshot → ImplementationContext → Service (Unit {0})
verify_initial_checkpoint snapshot context = do
  check (holds_value snapshot.values.implementation_run_id context.run.id) inconsistent
  if is_next_load snapshot.next
      then check (run_can_generate context.run.status) inconsistent
      else do
        check (run_is_generating context.run.status && is_next_work snapshot.next) inconsistent
        verify_checkpoint_values snapshot.values context

module _ (host : Host) where
  unfoldable pub require_clean_worktree :
      (worktree : String) → (commit_sha : ℕ) → Service (Unit {0})
  require_clean_worktree worktree commit_sha = do
    check (host.is_dir worktree) inconsistent
    head ← git_answer (host.head_sha worktree)
    check (head == commit_sha) inconsistent
    clean ← git_answer (host.is_clean worktree)
    check clean inconsistent
    where
      -- `except GitClientError: raise WorkspaceInconsistentError()`
      git_answer : {A : Type 0} → Service A → Service A
      git_answer (failed git_error) = failed inconsistent
      git_answer r = r

  -- Nothing exists at the path of a run that is still pending, or a clean worktree.
  unfoldable pub verify_initial_worktree :
      (exists : String → Bool) → ImplementationContext → Service (Unit {0})
  verify_initial_worktree exists context =
      let expected = host.run_path context.task.id context.run.id in
      let value = relpath_or_empty context.run.worktree_relpath in
      if run_is_pending context.run.status
      then elim context.run.worktree_relpath [
        | some _ ↦ failed inconsistent
        | none ↦
            if exists expected
            then require_clean_worktree expected context.run.base_commit
            else done tt
      ]
      else if str_eq value ""
      then failed inconsistent
      else resolve_for host context.task.id context.run.id value >>= λ worktree.
          require_clean_worktree worktree context.run.base_commit

module _ {W : Type 0} (host : Host) (graph : Graph W) where
  -- The checks of `_resume_test` before the first look at the graph's state.
  unfoldable pub check_resume : (run_id : ℕ) → W → Service ImplementationContext
  check_resume run_id w = do
    context ← from_store (load_context run_id (graph.db_of w))
    verify_source host context
    saved ← graph.has_checkpoint w
    check saved inconsistent
    done context

  -- The checks on the state that waits for the approval.
  unfoldable pub check_approval :
      ImplementationContext → (patch_sha256 : ℕ) → W → Service (Unit {0})
  check_approval context patch_sha256 w = do
    snapshot ← graph.get_state w
    check (is_next_await snapshot.next) inconsistent
    verify_checkpoint_values snapshot.values context
    check (holds_value snapshot.values.patch_sha256 patch_sha256) inconsistent

  unfoldable pub go_on_if : Service (Unit {0}) → W → Service (Unit {0}) × W
  go_on_if (done _) w = graph.invoke go_on w
  go_on_if (failed error) w = (failed error, w)

  -- A graph that stopped before `apply_patch` goes on first.
  unfoldable pub catch_up : ImplementationContext → Snapshot → W → Service (Unit {0}) × W
  catch_up context snapshot w =
      if is_next_apply snapshot.next
      then go_on_if (verify_checkpoint_values snapshot.values context) w
      else (done tt, w)

  unfoldable pub resume_if :
      (test_id patch_sha256 : ℕ) → Service (Unit {0}) → W → Service (Unit {0}) × W
  resume_if test_id patch_sha256 (done _) w = graph.invoke (run_tests test_id patch_sha256) w
  resume_if test_id patch_sha256 (failed error) w = (failed error, w)

  unfoldable pub resume_after :
      ImplementationContext
      → (test_id patch_sha256 : ℕ) → Service (Unit {0}) × W
      → Service (Unit {0}) × W
  resume_after context test_id patch_sha256 (failed error, w) = (failed error, w)
  resume_after context test_id patch_sha256 (done _, w) =
      resume_if test_id patch_sha256 (check_approval context patch_sha256 w) w

  unfoldable pub resume_snapshot :
      ImplementationContext
      → (test_id patch_sha256 : ℕ) → Service Snapshot
      → W
      → Service (Unit {0}) × W
  resume_snapshot context test_id patch_sha256 (failed error) w = (failed error, w)
  resume_snapshot context test_id patch_sha256 (done snapshot) w =
      resume_after context test_id patch_sha256 (catch_up context snapshot w)

  unfoldable pub resume_checked :
      (test_id patch_sha256 : ℕ) → Service ImplementationContext → W → Service (Unit {0}) × W
  resume_checked test_id patch_sha256 (failed error) w = (failed error, w)
  resume_checked test_id patch_sha256 (done context) w =
      resume_snapshot context test_id patch_sha256 (graph.get_state w) w

  unfoldable pub resume_test : (run_id test_id patch_sha256 : ℕ) → W → Service (Unit {0}) × W
  resume_test run_id test_id patch_sha256 w =
      resume_checked test_id patch_sha256 (check_resume run_id w) w

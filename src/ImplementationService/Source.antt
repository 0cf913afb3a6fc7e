-- ===== src/ImplementationService/Source.antt =====
-- The checks of a run's records against its repository and its worktree: `_verify_source`,
-- `_require_worktree` and the checkpoint checks of backend/app/services/implementation_service.py, `resolve_for` of
-- implementation_workspace.py and `verify_workspace` of repository_service.py.
use issue_pilot.Prelude.{
  ℕ, String, Option, none, some, List, [], ◌∷◌, Bool, not, ◌&&◌, ◌==◌, str_eq, if◌then◌else◌,
}
use issue_pilot.PlanningOutputs.{every}
use issue_pilot.Status.{plan_is_approved}
use issue_pilot.Db.{ThreadId, implementation}
use issue_pilot.ImplementationStore.{ImplementationContext}
use issue_pilot.PatchService.{PurePath}
use issue_pilot.ImplementationService.Scope.{allowed_paths}
use issue_pilot.ImplementationService.Failures.{
  Service, done, failed, check, ◌>>=◌, ◌>>◌, inconsistent, unsafe_workspace_path, scope_invalid,
}

-- What the service asks of the provider, of git and of the file system.
pub record Host : Type 0 where
  pub provider_name : String
  pub provider_model : String
  pub repository_path : ℕ → Service String
  pub is_dir : String → Bool
  pub head_sha : String → Service ℕ
  pub is_clean : String → Service Bool
  -- `(root / value).resolve()`, none when it is outside the root
  pub resolve_relative : String → Option String
  pub run_path : (task_id run_id : ℕ) → String
  pub pure_path : String → PurePath

-- GRAPH_VERSION and PROMPT_VERSION of backend/app/agents/implementation_graph.py
abbrev pub graph_version : String
graph_version = "implementation-graph-v1"

abbrev pub prompt_version : String
prompt_version = "file-replacement-v1"

abbrev thread_eq : ThreadId → ThreadId → Bool
thread_eq (implementation a) (implementation b) = a == b

-- `context.run.worktree_relpath or ""`
abbrev pub relpath_or_empty : Option String → String
relpath_or_empty none = ""
relpath_or_empty (some value) = value

module _ (host : Host) where
  unfoldable pub verify_workspace : (repository : String) → (expected_sha : ℕ) → Service (Unit {0})
  verify_workspace repository expected_sha = do
    check (host.is_dir repository) inconsistent
    actual_sha ← host.head_sha repository
    check (actual_sha == expected_sha) inconsistent
    clean ← host.is_clean repository
    check clean inconsistent

  -- The five commits are one.
  unfoldable pub one_commit : ImplementationContext → Bool
  one_commit context =
      every (λ commit. commit == context.run.base_commit)
        (context.planning_run.commit_sha ∷ context.snapshot.commit_sha
          ∷ context.code_index.commit_sha ∷ context.retrieval_run.commit_sha ∷ [])

  unfoldable pub is_current : ImplementationContext → Bool
  is_current context =
      plan_is_approved context.plan.status
      && (context.plan.version == context.run.plan_version
          && (str_eq context.run.graph_version graph_version
              && (str_eq context.run.prompt_version prompt_version
                  && (str_eq context.run.llm_provider host.provider_name
                      && (str_eq context.run.llm_model host.provider_model
                          && thread_eq context.run.checkpoint_thread_id
                              (implementation context.run.id))))))

  unfoldable pub verify_source : ImplementationContext → Service (Unit {0})
  verify_source context = do
    check (one_commit context && (context.plan.id == context.run.plan_id)) inconsistent
    check (is_current context) inconsistent
    source ← host.repository_path context.task.id
    verify_workspace source context.run.base_commit

  unfoldable pub resolve_for : (task_id run_id : ℕ) → (value : String) → Service String
  resolve_for task_id run_id value = elim (host.resolve_relative value) [
    | none ↦ failed unsafe_workspace_path
    | some resolved ↦
        if str_eq resolved (host.run_path task_id run_id)
        then done resolved
        else failed unsafe_workspace_path
  ]

  unfoldable pub require_worktree : ImplementationContext → Service String
  require_worktree context = do
    let value = relpath_or_empty context.run.worktree_relpath
    check (not (str_eq value "")) inconsistent
    worktree ← resolve_for context.task.id context.run.id value
    check (host.is_dir worktree) inconsistent
    done worktree

  unfoldable pub context_paths : ImplementationContext → Service (List String)
  context_paths context =
      elim (allowed_paths host.pure_path context.plan.draft.steps context.plan.draft.test_strategy
        context.snapshot.tree_manifest) [ none ↦ failed scope_invalid | some paths ↦ done paths ]

-- ===== src/Db.antt =====
-- The database of the planning and implementation workflow: backend/app/models/*.py. A row is a
-- record of its columns. The rows of the repository, index and retrieval tables have the columns
-- that the two stores read. An insert that breaks a key or a unique constraint is an IntegrityError,
-- which both stores turn into DatabaseUnavailableError.
use issue_pilot.Prelude.{ℕ, String, Option, List, [], ◌∷◌, ◌++◌, Bool, false, ◌≡◌, arith}
use issue_pilot.Prelude.{◌&&◌, ◌||◌, ◌==◌, if◌then◌else◌}
use issue_pilot.Prelude.Table.{exists}
use issue_pilot.Status.{TaskStatus, Action, PlanStatus, DecisionStatus, RunStatus, TestStatus}
use issue_pilot.Status.{plan_is_proposed}
use issue_pilot.Schemas.{RequirementAnalysisDraft, ImplementationPlanDraft, PatchFile, TreeItem, ℤ}
use issue_pilot.Result.{Result, ok, err, database_unavailable}

pub record Task : Type 0 where
  pub id : ℕ
  pub repository_url : String
  pub issue_text : String
  pub status : TaskStatus
  pub failure_code : Option String
  pub failure_message : Option String

pub record RepositorySnapshot : Type 0 where
  pub task_id : ℕ
  pub commit_sha : ℕ
  pub tree_manifest : List TreeItem

pub record CodeIndex : Type 0 where
  pub task_id : ℕ
  pub commit_sha : ℕ

pub record RetrievalRun : Type 0 where
  pub id : ℕ
  pub task_id : ℕ
  pub commit_sha : ℕ

pub record PlanningRun : Type 0 where
  pub id : ℕ
  pub task_id : ℕ
  pub retrieval_run_id : ℕ
  pub commit_sha : ℕ
  pub graph_version : String
  pub llm_provider : String
  pub llm_model : String
  pub analysis_prompt_version : String
  pub plan_prompt_version : String
  pub evidence_sha256 : ℕ
  pub evidence_count : ℕ
  pub evidence_truncated : Bool

pub record RequirementAnalysis : Type 0 where
  pub run_id : ℕ
  pub draft : RequirementAnalysisDraft

pub record ImplementationPlan : Type 0 where
  pub id : ℕ
  pub run_id : ℕ
  pub version : ℕ
  pub status : PlanStatus
  pub supersedes_plan_id : Option ℕ
  pub revision_feedback : Option String
  pub draft : ImplementationPlanDraft
  pub decided_at : Option ℕ

pub record PlanningDecision : Type 0 where
  pub id : ℕ
  pub task_id : ℕ
  pub run_id : ℕ
  pub plan_id : ℕ
  pub plan_version : ℕ
  pub action : Action
  pub comment : Option String
  pub idempotency_key : ℕ
  pub status : DecisionStatus
  pub failure_code : Option String
  pub failure_message : Option String
  pub applied_at : Option ℕ

-- f"implementation:{run_id}"
pub data ThreadId : Type 0 where
  implementation : ℕ → ThreadId

pub record ImplementationRun : Type 0 where
  pub id : ℕ
  pub task_id : ℕ
  pub planning_run_id : ℕ
  pub plan_id : ℕ
  pub plan_version : ℕ
  pub idempotency_key : ℕ
  pub base_commit : ℕ
  pub graph_version : String
  pub prompt_version : String
  pub llm_provider : String
  pub llm_model : String
  pub checkpoint_thread_id : ThreadId
  pub worktree_relpath : Option String
  pub status : RunStatus
  pub failure_code : Option String
  pub failure_message : Option String

pub record PatchArtifact : Type 0 where
  pub implementation_run_id : ℕ
  pub unified_diff : String
  pub diff_sha256 : ℕ
  pub file_manifest : List PatchFile
  pub file_count : ℕ
  pub insertions : ℕ
  pub deletions : ℕ

pub record TestRun : Type 0 where
  pub id : ℕ
  pub implementation_run_id : ℕ
  pub idempotency_key : ℕ
  pub expected_patch_sha256 : ℕ
  pub status : TestStatus
  pub command_argv : List String
  pub runner_image : String
  pub exit_code : Option ℤ
  pub timed_out : Bool
  pub duration_ms : Option ℕ
  pub stdout : Option String
  pub stderr : Option String
  pub output_sha256 : Option ℕ
  pub output_truncated : Bool
  pub finished_at : Option ℕ

pub record Db : Type 0 where
  pub tasks : List Task
  pub snapshots : List RepositorySnapshot
  pub code_indexes : List CodeIndex
  pub retrieval_runs : List RetrievalRun
  pub planning_runs : List PlanningRun
  pub analyses : List RequirementAnalysis
  pub plans : List ImplementationPlan
  pub decisions : List PlanningDecision
  pub implementation_runs : List ImplementationRun
  pub patches : List PatchArtifact
  pub tests : List TestRun

abbrev pub empty : Db
empty = record {
  tasks = [];
  snapshots = [];
  code_indexes = [];
  retrieval_runs = [];
  planning_runs = [];
  analyses = [];
  plans = [];
  decisions = [];
  implementation_runs = [];
  patches = [];
  tests = [];
}

-- The primary keys.
abbrev pub task_key : Task → ℕ
task_key r = r.id

abbrev pub plan_key : ImplementationPlan → ℕ
plan_key r = r.id

abbrev pub decision_key : PlanningDecision → ℕ
decision_key r = r.id

abbrev pub run_key : ImplementationRun → ℕ
run_key r = r.id

abbrev pub patch_key : PatchArtifact → ℕ
patch_key r = r.implementation_run_id

abbrev pub test_key : TestRun → ℕ
test_key r = r.id

-- Appends a row unless it clashes with a stored one.
abbrev pub insert {ℓ} : {A : Type ℓ} → (A → Bool) → A → List A → Result (List A)
insert clash r rows = if exists clash rows then err database_unavailable else ok (rows ++ r ∷ [])

pub insert-ok {ℓ} :
    {A : Type ℓ} (clash : A → Bool) (r : A) (rows rows' : List A)
    → insert clash r rows ≡ ok rows'
    → (rows' ≡ rows ++ r ∷ []) × (exists clash rows ≡ false)
insert-ok clash r rows rows' h = ground arith

-- Unique: id, task_id, retrieval_run_id.
unfoldable pub insert_planning_run : PlanningRun → List PlanningRun → Result (List PlanningRun)
insert_planning_run r =
    insert (λ x. x.id == r.id || x.task_id == r.task_id || x.retrieval_run_id == r.retrieval_run_id)
      r

unfoldable pub insert_analysis :
    RequirementAnalysis → List RequirementAnalysis → Result (List RequirementAnalysis)
insert_analysis r = insert (λ x. x.run_id == r.run_id) r

-- Unique: id, (run_id, version), and run_id among the proposed plans: a partial index that
-- backend/migrations/versions/20260817_06_m6_approval.py makes.
unfoldable pub plan_clash : ImplementationPlan → ImplementationPlan → Bool
plan_clash r x =
    x.id == r.id
    || (x.run_id == r.run_id
        && (x.version == r.version || (plan_is_proposed x.status && plan_is_proposed r.status)))

unfoldable pub insert_plan :
    ImplementationPlan → List ImplementationPlan → Result (List ImplementationPlan)
insert_plan r = insert (plan_clash r) r

-- Unique: id, (task_id, idempotency_key).
unfoldable pub insert_decision :
    PlanningDecision → List PlanningDecision → Result (List PlanningDecision)
insert_decision r =
    insert (λ x. x.id == r.id || (x.task_id == r.task_id && x.idempotency_key == r.idempotency_key))
      r

-- Unique: id, task_id; the constraint on (task_id, idempotency_key) follows.
unfoldable pub insert_implementation_run :
    ImplementationRun → List ImplementationRun → Result (List ImplementationRun)
insert_implementation_run r = insert (λ x. x.id == r.id || x.task_id == r.task_id) r

unfoldable pub insert_patch : PatchArtifact → List PatchArtifact → Result (List PatchArtifact)
insert_patch r = insert (λ x. x.implementation_run_id == r.implementation_run_id) r

-- Unique: id, implementation_run_id; the constraint with the idempotency key follows.
unfoldable pub insert_test : TestRun → List TestRun → Result (List TestRun)
insert_test r = insert (λ x. x.id == r.id || x.implementation_run_id == r.implementation_run_id) r

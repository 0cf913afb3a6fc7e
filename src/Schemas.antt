-- ===== src/Schemas.antt =====
-- The request payloads and model outputs that the stores keep: backend/app/schemas/planning.py and
-- implementation.py, backend/app/agents/planning_state.py, and the artifacts of patch_service.py and
-- test_runner.py. A UUID and a hexadecimal digest are the numbers that they denote; a snippet is its code points.
use issue_pilot.Prelude.{ℕ, zero, String, Option, List, [], ◌∷◌, Bool, true, false}
use issue_pilot.Status.{Action}

pub record PlanningDecisionCreate : Type 0 where
  pub action : Action
  pub expected_plan_version : ℕ
  pub idempotency_key : ℕ
  pub comment : Option String

pub record EvidenceItem : Type 0 where
  pub rank : ℕ
  pub path : String
  pub symbol : Option String
  pub kind : String
  pub start_line : ℕ
  pub end_line : ℕ
  pub snippet : List ℕ
  pub matched_channels : List String

pub record EvidenceStatement : Type 0 where
  pub description : String
  pub evidence_ranks : List ℕ

pub record AcceptanceCriterion : Type 0 where
  pub id : String
  pub description : String
  pub evidence_ranks : List ℕ

pub record AffectedArea : Type 0 where
  pub path : String
  pub symbol : Option String
  pub reason : String
  pub evidence_ranks : List ℕ

pub record AnalysisRisk : Type 0 where
  pub description : String
  pub mitigation : String
  pub evidence_ranks : List ℕ

pub record RequirementAnalysisDraft : Type 0 where
  pub summary : String
  pub acceptance_criteria : List AcceptanceCriterion
  pub constraints : List EvidenceStatement
  pub assumptions : List EvidenceStatement
  pub affected_areas : List AffectedArea
  pub risks : List AnalysisRisk

pub record PlanStep : Type 0 where
  pub order : ℕ
  pub title : String
  pub description : String
  pub paths : List String
  pub symbols : List String
  pub evidence_ranks : List ℕ

pub record TestStrategyItem : Type 0 where
  pub description : String
  pub target_paths : List String
  pub evidence_ranks : List ℕ

pub record ImplementationPlanDraft : Type 0 where
  pub steps : List PlanStep
  pub test_strategy : List TestStrategyItem
  pub risk_notes : List String

pub record PlanningEvidenceBundle : Type 0 where
  pub task_id : ℕ
  pub issue : String
  pub commit_sha : ℕ
  pub retrieval_run_id : ℕ
  pub evidence_sha256 : ℕ
  pub evidence_truncated : Bool
  pub evidence : List EvidenceItem

pub record ImplementationCreate : Type 0 where
  pub expected_plan_version : ℕ
  pub idempotency_key : ℕ

pub record TestRunCreate : Type 0 where
  pub expected_patch_sha256 : ℕ
  pub idempotency_key : ℕ

-- The part of an item of a snapshot's `tree_manifest` that is read.
pub record TreeItem : Type 0 where
  pub path : String
  pub kind : String

pub record PatchFile : Type 0 where
  pub path : String
  pub original_sha256 : Option ℕ  -- `""` is `none`
  pub patched_sha256 : ℕ

pub record PatchArtifactDraft : Type 0 where
  pub unified_diff : String
  pub diff_sha256 : ℕ
  pub file_manifest : List PatchFile
  pub file_count : ℕ
  pub insertions : ℕ
  pub deletions : ℕ

-- A process's return code: negative for the signal that killed it.
pub data ℤ : Type 0 where
  pos : ℕ → ℤ
  negsuc : ℕ → ℤ

unfoldable pub is_zero : ℤ → Bool
is_zero (pos zero) = true
is_zero _ = false

pub record TestExecutionResult : Type 0 where
  pub command_argv : List String
  pub runner_image : String
  pub exit_code : Option ℤ
  pub timed_out : Bool
  pub duration_ms : ℕ
  pub stdout : String
  pub stderr : String
  pub output_sha256 : ℕ
  pub output_truncated : Bool

-- TEST_COMMAND of backend/app/services/test_runner.py
abbrev pub test_command : List String
test_command = "python" ∷ "-m" ∷ "pytest" ∷ "-q" ∷ "-p" ∷ "no:cacheprovider" ∷ []

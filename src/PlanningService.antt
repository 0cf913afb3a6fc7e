-- ===== src/PlanningService.antt =====
-- The evidence bundle of backend/app/services/planning_service.py. A text is the list of its code
-- points.
pub mod Bounds
pub mod Decisions
mod Examples
use issue_pilot.Prelude.{
  ℕ, ◌+◌, ◌-◌, min, String, Bool, true, false, not, ◌&&◌, ◌||◌, ◌==◌, if◌then◌else◌, Option, List,
  [], ◌∷◌, length, take, ltb,
}
use issue_pilot.Status.{TaskStatus}
use issue_pilot.Schemas.{EvidenceItem, PlanningEvidenceBundle}

pub record PlanningLimits : Type 0 where
  pub evidence_limit : ℕ
  pub max_snippet_characters : ℕ
  pub max_evidence_characters : ℕ

pub record PlanningEvidenceRecord : Type 0 where
  pub rank : ℕ
  pub path : String
  pub symbol : Option String
  pub kind : String
  pub start_line : ℕ
  pub end_line : ℕ
  pub content : List ℕ
  pub matched_channels : List String

-- The columns of PlanningContext that the bundle is made from.
pub record PlanningContext : Type 0 where
  pub task_id : ℕ
  pub issue : String
  pub status : TaskStatus
  pub snapshot_sha : ℕ
  pub index_sha : ℕ
  pub retrieval_run_id : ℕ
  pub retrieval_sha : ℕ
  pub evidence : List PlanningEvidenceRecord

pub data BundleError : Type 0 where
  workspace_inconsistent context_limit : BundleError

pub data Bundled : Type 0 where
  bundled : PlanningEvidenceBundle → Bundled
  refused : BundleError → Bundled

unfoldable pub evidence_item : PlanningEvidenceRecord → (snippet : List ℕ) → EvidenceItem
evidence_item r snippet = record {
  rank = r.rank;
  path = r.path;
  symbol = r.symbol;
  kind = r.kind;
  start_line = r.start_line;
  end_line = r.end_line;
  snippet = snippet;
  matched_channels = r.matched_channels;
}

-- The loop of `_bounded_evidence`, with its `remaining` and `truncated`.
unfoldable pub bounded_loop :
    (max_snippet remaining : ℕ) (truncated : Bool)
    → List PlanningEvidenceRecord
    → List EvidenceItem × Bool
bounded_loop max_snippet remaining truncated [] = ([], truncated)
bounded_loop max_snippet remaining truncated (r ∷ records) =
    let allowed = min max_snippet remaining in
    let snippet = take allowed r.content in
    let rest =
      bounded_loop max_snippet (remaining - length snippet)
        (truncated || ltb (length snippet) (length r.content)) records in
    if ltb allowed 1 then ([], true) else (evidence_item r snippet ∷ rest.0, rest.1)

unfoldable pub bounded_evidence :
    List PlanningEvidenceRecord → PlanningLimits → List EvidenceItem × Bool
bounded_evidence records limits =
    bounded_loop limits.max_snippet_characters limits.max_evidence_characters
      (ltb limits.evidence_limit (length records)) (take limits.evidence_limit records)

unfoldable pub limits_below_one : PlanningLimits → Bool
limits_below_one limits =
    ltb
      (min (min limits.evidence_limit limits.max_snippet_characters) limits.max_evidence_characters)
      1

-- len({snapshot_sha, index_sha, retrieval_sha}) == 1
unfoldable pub matching_commits : PlanningContext → Bool
matching_commits context =
    (context.snapshot_sha == context.index_sha) && (context.index_sha == context.retrieval_sha)

abbrev is_empty : List EvidenceItem → Bool
is_empty [] = true
is_empty (item ∷ items) = false

-- `sha256` stands for the digest of the canonical JSON of the items.
unfoldable pub evidence_bundle :
    (sha256 : List EvidenceItem → ℕ) → PlanningContext → PlanningLimits → Bundled
evidence_bundle sha256 context limits =
    let found = bounded_evidence context.evidence limits in
    if limits_below_one limits
    then refused context_limit
    else (if is_empty found.0
        then refused context_limit
        else bundled (record {
          task_id = context.task_id;
          issue = context.issue;
          commit_sha = context.snapshot_sha;
          retrieval_run_id = context.retrieval_run_id;
          evidence_sha256 = sha256 found.0;
          evidence_truncated = found.1;
          evidence = found.0;
        }))

abbrev can_load_evidence : TaskStatus → Bool
can_load_evidence TaskStatus.analyzing = true
can_load_evidence TaskStatus.waiting_approval = true
can_load_evidence TaskStatus.decision_pending = true
can_load_evidence TaskStatus.revising = true
can_load_evidence _ = false

-- `workspace_at` tells whether the task's working tree is clean at the commit.
unfoldable pub load_evidence :
    (sha256 : List EvidenceItem → ℕ) (workspace_at : (t commit : ℕ) → Bool)
    → PlanningContext
    → PlanningLimits
    → Bundled
load_evidence sha256 workspace_at context limits =
    if not (can_load_evidence context.status)
    then refused workspace_inconsistent
    else (if not (matching_commits context)
        then refused workspace_inconsistent
        else (if not (workspace_at context.task_id context.snapshot_sha)
            then refused workspace_inconsistent
            else evidence_bundle sha256 context limits))

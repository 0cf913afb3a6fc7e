-- ===== src/PlanningService/Examples.antt =====
-- The bounds of the evidence on two records, of which the second is cut.
use issue_pilot.Prelude.{ℕ, ◌≡◌, refl, none, List, [], ◌∷◌, length, true, Bool}
use issue_pilot.Status.{TaskStatus}
use issue_pilot.Schemas.{EvidenceItem, PlanningEvidenceBundle}
use issue_pilot.PlanningService.{
  PlanningLimits, PlanningEvidenceRecord, PlanningContext, bundled, load_evidence, evidence_bundle,
  bounded_evidence, bounded_loop, evidence_item, limits_below_one, matching_commits,
}
use issue_pilot.PlanningService.Bounds.{IsBounded, load_evidence-IsBounded}

abbrev retrieved : (rank : ℕ) → (content : List ℕ) → PlanningEvidenceRecord
retrieved rank content = record {
  rank = rank;
  path = "shop/counter.py";
  symbol = none;
  kind = "module";
  start_line = 1;
  end_line = 2;
  content = content;
  matched_channels = "lexical" ∷ [];
}

abbrev records : List PlanningEvidenceRecord
records = retrieved 1 (97 ∷ 98 ∷ []) ∷ retrieved 2 (99 ∷ 100 ∷ 101 ∷ []) ∷ []

abbrev context : PlanningContext
context = record {
  task_id = 1;
  issue = "Reset the counter";
  status = TaskStatus.analyzing;
  snapshot_sha = 7;
  index_sha = 7;
  retrieval_run_id = 3;
  retrieval_sha = 7;
  evidence = records;
}

abbrev limits : (total : ℕ) → PlanningLimits
limits total = record {
  evidence_limit = 2;
  max_snippet_characters = 3;
  max_evidence_characters = total;
}

abbrev bundle_of : List EvidenceItem → Bool → PlanningEvidenceBundle
bundle_of items truncated = record {
  task_id = 1;
  issue = "Reset the counter";
  commit_sha = 7;
  retrieval_run_id = 3;
  evidence_sha256 = length items;
  evidence_truncated = truncated;
  evidence = items;
}

abbrev cut_items : List EvidenceItem
cut_items =
    evidence_item (retrieved 1 (97 ∷ 98 ∷ [])) (97 ∷ 98 ∷ [])
    ∷ evidence_item (retrieved 2 (99 ∷ 100 ∷ 101 ∷ [])) (99 ∷ 100 ∷ [])
    ∷ []

cut :
    load_evidence length (λ t commit. true) context (limits 4) ≡ bundled (bundle_of cut_items true)
unfolding load_evidence evidence_bundle bounded_evidence bounded_loop limits_below_one
    matching_commits
cut = refl

load_evidence-IsBounded_example : IsBounded 2 3 4 cut_items
load_evidence-IsBounded_example =
    load_evidence-IsBounded length (λ t commit. true) context (limits 4) (bundle_of cut_items true)
      cut

-- ===== src/PlanningOutputs/Examples.antt =====
-- A plan of one step over one evidence item, as test data for backend/app/schemas/planning.py.
use issue_pilot.Prelude.{◌≡◌, refl, none, some, [], ◌∷◌, All, true, false}
use issue_pilot.Schemas.{EvidenceItem, RequirementAnalysisDraft, ImplementationPlanDraft}
use issue_pilot.PlanningOutputs.{
  validate_planning_outputs, has_path, ranks_are_unique, rank_count, valid_analysis_references,
  valid_plan_references, valid_area, valid_step, valid_strategy, require_ranks, require_paths,
  item_at, orders_from, analysis_texts, plan_texts, contains_implementation_content,
}
use issue_pilot.PlanningOutputs.References.{
  is_cited, IsEvidenced, validate_planning_outputs-IsEvidenced,
}

abbrev counter : EvidenceItem
counter = record {
  rank = 1;
  path = "shop/counter.py";
  symbol = some "Counter.reset";
  kind = "method";
  start_line = 3;
  end_line = 5;
  snippet = 97 ∷ [];
  matched_channels = "symbol" ∷ [];
}

abbrev analysis : RequirementAnalysisDraft
analysis = record {
  summary = "The counter keeps its value";
  acceptance_criteria = [];
  constraints = [];
  assumptions = [];
  affected_areas =
      record {
        path = "shop/counter.py";
        symbol = none;
        reason = "It has the value";
        evidence_ranks = 1 ∷ [];
      }
      ∷ [];
  risks = [];
}

abbrev plan : ImplementationPlanDraft
plan = record {
  steps =
      record {
        order = 1;
        title = "Reset";
        description = "Set the value to zero";
        paths = "shop/counter.py" ∷ [];
        symbols = "Counter.reset" ∷ [];
        evidence_ranks = 1 ∷ [];
      }
      ∷ [];
  test_strategy =
      record {
        description = "Reset twice";
        target_paths = "shop/counter.py" ∷ [];
        evidence_ranks = 1 ∷ [];
      }
      ∷ [];
  risk_notes = [];
}

accepted : validate_planning_outputs (λ marker text. false) analysis plan (counter ∷ []) ≡ true
unfolding validate_planning_outputs ranks_are_unique rank_count valid_analysis_references
    valid_plan_references valid_area valid_step valid_strategy require_ranks require_paths item_at
    orders_from analysis_texts plan_texts contains_implementation_content
accepted = refl

validate_planning_outputs_example :
    All
      (λ a. is_cited (counter ∷ []) a.evidence_ranks (has_path a.path) ≡ true)
      analysis.affected_areas
    × All (IsEvidenced (counter ∷ [])) plan.steps
    × All
        (λ t.
          All (λ p. is_cited (counter ∷ []) t.evidence_ranks (has_path p) ≡ true) t.target_paths)
        plan.test_strategy
validate_planning_outputs_example =
    validate_planning_outputs-IsEvidenced (λ marker text. false) analysis plan (counter ∷ [])
      accepted

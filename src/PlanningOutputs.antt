-- ===== src/PlanningOutputs.antt =====
-- `validate_planning_outputs` of backend/app/schemas/planning.py: what a model's analysis and plan may
-- refer to. A validation that raises PlanningEvidenceInvalidError is the test `false`.
pub mod References
mod Examples
use issue_pilot.Prelude.{
  ℕ, ◌+◌, String, str_eq, Bool, true, false, not, ◌&&◌, ◌||◌, ◌==◌, if◌then◌else◌, Option, none,
  some, List, [], ◌∷◌, ◌++◌, map, length,
}
use issue_pilot.Schemas.{
  EvidenceItem, EvidenceStatement, AcceptanceCriterion, AffectedArea, AnalysisRisk,
  RequirementAnalysisDraft, PlanStep, TestStrategyItem, ImplementationPlanDraft,
}

abbrev pub any {ℓ} : {A : Type ℓ} → (A → Bool) → List A → Bool
any q [] = false
any q (x ∷ xs) = q x || any q xs

abbrev pub every {ℓ} : {A : Type ℓ} → (A → Bool) → List A → Bool
every q [] = true
every q (x ∷ xs) = q x && every q xs

-- by_rank[rank]: the last item with the rank, as in the dictionary comprehension.
unfoldable pub item_at : ℕ → List EvidenceItem → Option EvidenceItem
item_at rank [] = none
item_at rank (item ∷ items) = elim (item_at rank items) [
  | some later ↦ some later
  | none ↦ if item.rank == rank then some item else none
]

-- len(by_rank)
unfoldable pub rank_count : List EvidenceItem → ℕ
rank_count [] = 0
rank_count (item ∷ items) =
    let others = rank_count items in
    if any (λ i. i.rank == item.rank) items then others else others + 1

abbrev is_empty : List EvidenceItem → Bool
is_empty [] = true
is_empty (item ∷ items) = false

unfoldable pub ranks_are_unique : List EvidenceItem → Bool
ranks_are_unique evidence = not (is_empty evidence) && (rank_count evidence == length evidence)

unfoldable pub require_ranks : (ranks : List ℕ) → List EvidenceItem → Option (List EvidenceItem)
require_ranks [] evidence = some []
require_ranks (rank ∷ ranks) evidence =
    let rest = require_ranks ranks evidence in
    elim (item_at rank evidence) [
      | none ↦ none
      | some item ↦ elim rest [ none ↦ none | some items ↦ some (item ∷ items) ]
    ]

abbrev pub has_path : String → EvidenceItem → Bool
has_path path item = str_eq item.path path

abbrev pub has_symbol : String → EvidenceItem → Bool
has_symbol symbol item = elim item.symbol [ none ↦ false | some s ↦ str_eq s symbol ]

-- not _require_paths: every path is the path of some item
unfoldable pub require_paths : List String → List EvidenceItem → Bool
require_paths paths items = every (λ p. any (has_path p) items) paths

abbrev are_ranks : List EvidenceItem → List ℕ → Bool
are_ranks evidence ranks = elim (require_ranks ranks evidence) [ none ↦ false | some _ ↦ true ]

-- `area.symbol and area.symbol not in symbols` is false
abbrev symbol_is_evidenced : Option String → List EvidenceItem → Bool
symbol_is_evidenced none items = true
symbol_is_evidenced (some s) items = str_eq s "" || any (has_symbol s) items

unfoldable pub valid_area : List EvidenceItem → AffectedArea → Bool
valid_area evidence area = elim (require_ranks area.evidence_ranks evidence) [
  | none ↦ false
  | some items ↦ any (has_path area.path) items && symbol_is_evidenced area.symbol items
]

unfoldable pub valid_analysis_references : List EvidenceItem → RequirementAnalysisDraft → Bool
valid_analysis_references evidence analysis =
    every (λ c. are_ranks evidence c.evidence_ranks) analysis.acceptance_criteria
    && (every (λ s. are_ranks evidence s.evidence_ranks) analysis.constraints
        && (every (λ s. are_ranks evidence s.evidence_ranks) analysis.assumptions
            && (every (λ r. are_ranks evidence r.evidence_ranks) analysis.risks
                && every (valid_area evidence) analysis.affected_areas)))

unfoldable pub valid_step : List EvidenceItem → PlanStep → Bool
valid_step evidence step = elim (require_ranks step.evidence_ranks evidence) [
  | none ↦ false
  | some items ↦
      require_paths step.paths items && every (λ s. any (has_symbol s) items) step.symbols
]

unfoldable pub valid_strategy : List EvidenceItem → TestStrategyItem → Bool
valid_strategy evidence strategy = elim (require_ranks strategy.evidence_ranks evidence) [
  | none ↦ false
  | some items ↦ require_paths strategy.target_paths items
]

unfoldable pub valid_plan_references : List EvidenceItem → ImplementationPlanDraft → Bool
valid_plan_references evidence plan =
    every (valid_step evidence) plan.steps && every (valid_strategy evidence) plan.test_strategy

-- [step.order for step in steps] == list(range(next, next + len(steps)))
unfoldable pub orders_from : (next : ℕ) → List PlanStep → Bool
orders_from next [] = true
orders_from next (step ∷ steps) = (step.order == next) && orders_from (next + 1) steps

abbrev or_no_text : Option String → List String
or_no_text none = []
or_no_text (some text) = text ∷ []

abbrev all_texts {ℓ} : {A : Type ℓ} → (A → List String) → List A → List String
all_texts f [] = []
all_texts f (x ∷ xs) = f x ++ all_texts f xs

-- The texts of model_dump().
unfoldable pub analysis_texts : RequirementAnalysisDraft → List String
analysis_texts analysis =
    analysis.summary ∷ all_texts (λ c. c.id ∷ c.description ∷ []) analysis.acceptance_criteria
    ++ all_texts (λ s. s.description ∷ []) analysis.constraints
    ++ all_texts (λ s. s.description ∷ []) analysis.assumptions
    ++ all_texts (λ a. a.path ∷ a.reason ∷ or_no_text a.symbol) analysis.affected_areas
    ++ all_texts (λ r. r.description ∷ r.mitigation ∷ []) analysis.risks

unfoldable pub plan_texts : ImplementationPlanDraft → List String
plan_texts plan =
    all_texts (λ s. s.title ∷ s.description ∷ s.paths ++ s.symbols) plan.steps
    ++ all_texts (λ t. t.description ∷ t.target_paths) plan.test_strategy
    ++ plan.risk_notes

-- `contains marker text` stands for `marker in text.lower()`.
module _ (contains : (marker text : String) → Bool) where
  unfoldable pub contains_implementation_content : String → Bool
  contains_implementation_content text =
      any (λ marker. contains marker text) ("```" ∷ "diff --git" ∷ "@@ " ∷ "+++ b/" ∷ "--- a/" ∷ [])

  unfoldable pub validate_planning_outputs :
      RequirementAnalysisDraft → ImplementationPlanDraft → List EvidenceItem → Bool
  validate_planning_outputs analysis plan evidence =
      ranks_are_unique evidence
      && (valid_analysis_references evidence analysis
          && (valid_plan_references evidence plan
              && (orders_from 1 plan.steps
                  && (not (any contains_implementation_content (analysis_texts analysis))
                      && not (any contains_implementation_content (plan_texts plan))))))

-- ===== src/PlanningOutputs/References.antt =====
-- On the references that `validate_planning_outputs` of backend/app/schemas/planning.py checks.
use issue_pilot.Prelude.{
  ℕ, ◌≡◌, refl, ap, String, Bool, true, ◌&&◌, ◌==◌, Option, none, some, List, [], ◌∷◌, All,
  Bool-cases, inl, inr, arith,
}
use issue_pilot.Schemas.{
  EvidenceItem, AffectedArea, RequirementAnalysisDraft, PlanStep, TestStrategyItem,
  ImplementationPlanDraft,
}
use issue_pilot.PlanningOutputs.{
  any, every, item_at, require_ranks, require_paths, has_path, has_symbol, valid_area, valid_step,
  valid_strategy, valid_plan_references, valid_analysis_references, validate_planning_outputs,
}

-- Some item of the evidence has one of the ranks, and passes the test.
abbrev pub is_cited : List EvidenceItem → List ℕ → (EvidenceItem → Bool) → Bool
is_cited evidence ranks q = any (λ i. any (λ rank. i.rank == rank) ranks && q i) evidence

any-weaken {ℓ} :
    {A : Type ℓ} (q r : A → Bool) (xs : List A)
    → ((x : A) → q x ≡ true → r x ≡ true)
    → any q xs ≡ true
    → any r xs ≡ true
any-weaken q r [] f h = ground arith
any-weaken q r (x ∷ xs) f h = ground (arith, f x, any-weaken q r xs f)

every-All {ℓ} :
    {A : Type ℓ} (q : A → Bool) (P : A → Type 0) (xs : List A)
    → ((x : A) → q x ≡ true → P x)
    → every q xs ≡ true
    → All P xs
every-All q P [] f h = tt
every-All q P (x ∷ xs) f h = (f x (ground arith), every-All q P xs f (ground arith))

item_at-any :
    (rank : ℕ) (q : EvidenceItem → Bool) (evidence : List EvidenceItem) (item : EvidenceItem)
    → item_at rank evidence ≡ some item
    → q item ≡ true
    → any (λ i. (i.rank == rank) && q i) evidence ≡ true
unfolding item_at
item_at-any rank q [] item h k = ground arith
item_at-any rank q (x ∷ evidence) item h k = ground (arith, item_at-any rank q evidence item)

require_ranks-cons :
    (rank : ℕ) (ranks : List ℕ) (evidence items : List EvidenceItem)
    → require_ranks (rank ∷ ranks) evidence ≡ some items
    → (item : EvidenceItem) × (rest : List EvidenceItem) × (item_at rank evidence ≡ some item)
      × (require_ranks ranks evidence ≡ some rest)
      × (items ≡ item ∷ rest)
unfolding require_ranks
require_ranks-cons rank ranks evidence items h =
    found (item_at rank evidence) (require_ranks ranks evidence) refl refl
  where
    found :
        (o : Option EvidenceItem) (p : Option (List EvidenceItem))
        → item_at rank evidence ≡ o
        → require_ranks ranks evidence ≡ p
        → (item : EvidenceItem) × (rest : List EvidenceItem) × (item_at rank evidence ≡ some item)
          × (require_ranks ranks evidence ≡ some rest)
          × (items ≡ item ∷ rest)
    found none p e f = absurd (ground arith)
    found (some item) none e f = absurd (ground arith)
    found (some item) (some rest) e f = (item, rest, e, f, ground arith)

require_ranks-is_cited :
    (q : EvidenceItem → Bool) (ranks : List ℕ) (evidence items : List EvidenceItem)
    → require_ranks ranks evidence ≡ some items
    → any q items ≡ true
    → is_cited evidence ranks q ≡ true
unfolding require_ranks
require_ranks-is_cited q [] evidence items h k = ground arith
require_ranks-is_cited q (rank ∷ ranks) evidence items h k =
    let (item, rest, at_rank, others, split) = require_ranks-cons rank ranks evidence items h in
    elim (Bool-cases (q item)) [
      | inl here ↦
          any-weaken (λ i. (i.rank == rank) && q i) _ evidence (λ i. ground arith)
            (item_at-any rank q evidence item at_rank here)
      | inr there ↦
          any-weaken (λ i. any (λ rank. i.rank == rank) ranks && q i) _ evidence (λ i. ground arith)
            (require_ranks-is_cited q ranks evidence rest others (ground (arith, ap (any q) split)))
    ]

-- The paths and the symbols of a step are those of evidence that the step cites.
pub record IsEvidenced (evidence : List EvidenceItem) (step : PlanStep) : Type 0 where
  pub paths : All (λ p. is_cited evidence step.evidence_ranks (has_path p) ≡ true) step.paths
  pub symbols : All (λ s. is_cited evidence step.evidence_ranks (has_symbol s) ≡ true) step.symbols

valid_step-IsEvidenced :
    (evidence : List EvidenceItem) (step : PlanStep)
    → valid_step evidence step ≡ true
    → IsEvidenced evidence step
unfolding valid_step require_paths
valid_step-IsEvidenced evidence step h =
    with_items (require_ranks step.evidence_ranks evidence) refl
  where
    with_items :
        (o : Option (List EvidenceItem))
        → require_ranks step.evidence_ranks evidence ≡ o
        → IsEvidenced evidence step
    with_items none e = absurd (ground arith)
    with_items (some items) e = record {
      paths =
          every-All (λ p. any (has_path p) items) _ step.paths
            (λ p. require_ranks-is_cited (has_path p) step.evidence_ranks evidence items e)
            (ground arith);
      symbols =
          every-All (λ s. any (has_symbol s) items) _ step.symbols
            (λ s. require_ranks-is_cited (has_symbol s) step.evidence_ranks evidence items e)
            (ground arith);
    }

valid_strategy-cited :
    (evidence : List EvidenceItem) (strategy : TestStrategyItem)
    → valid_strategy evidence strategy ≡ true
    → All (λ p. is_cited evidence strategy.evidence_ranks (has_path p) ≡ true) strategy.target_paths
unfolding valid_strategy require_paths
valid_strategy-cited evidence strategy h =
    with_items (require_ranks strategy.evidence_ranks evidence) refl
  where
    with_items :
        (o : Option (List EvidenceItem))
        → require_ranks strategy.evidence_ranks evidence ≡ o
        → All
            (λ p. is_cited evidence strategy.evidence_ranks (has_path p) ≡ true)
            strategy.target_paths
    with_items none e = absurd (ground arith)
    with_items (some items) e =
        every-All (λ p. any (has_path p) items) _ strategy.target_paths
          (λ p. require_ranks-is_cited (has_path p) strategy.evidence_ranks evidence items e)
          (ground arith)

valid_area-cited :
    (evidence : List EvidenceItem) (area : AffectedArea)
    → valid_area evidence area ≡ true
    → is_cited evidence area.evidence_ranks (has_path area.path) ≡ true
unfolding valid_area
valid_area-cited evidence area h = with_items (require_ranks area.evidence_ranks evidence) refl
  where
    with_items :
        (o : Option (List EvidenceItem))
        → require_ranks area.evidence_ranks evidence ≡ o
        → is_cited evidence area.evidence_ranks (has_path area.path) ≡ true
    with_items none e = absurd (ground arith)
    with_items (some items) e =
        require_ranks-is_cited (has_path area.path) area.evidence_ranks evidence items e
          (ground arith)

-- An accepted analysis and plan invent no place in the code: every affected area and every tested
-- path is the path of an evidence item whose rank is cited there, and so is every path of a step, as
-- every symbol of a step is the symbol of such an item.
pub validate_planning_outputs-IsEvidenced :
    (contains : String → String → Bool) (analysis : RequirementAnalysisDraft)
    (plan : ImplementationPlanDraft) (evidence : List EvidenceItem)
    → validate_planning_outputs contains analysis plan evidence ≡ true
    → All (λ a. is_cited evidence a.evidence_ranks (has_path a.path) ≡ true) analysis.affected_areas
      × All (IsEvidenced evidence) plan.steps
      × All
          (λ t. All (λ p. is_cited evidence t.evidence_ranks (has_path p) ≡ true) t.target_paths)
          plan.test_strategy
unfolding validate_planning_outputs valid_plan_references valid_analysis_references
validate_planning_outputs-IsEvidenced contains analysis plan evidence h = (
  every-All (valid_area evidence) _ analysis.affected_areas (valid_area-cited evidence)
      (ground arith),
  every-All (valid_step evidence) _ plan.steps (valid_step-IsEvidenced evidence) (ground arith),
  every-All (valid_strategy evidence) _ plan.test_strategy (valid_strategy-cited evidence)
      (ground arith),
)

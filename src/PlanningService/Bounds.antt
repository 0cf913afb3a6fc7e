-- ===== src/PlanningService/Bounds.antt =====
-- On the evidence that `load_evidence` of backend/app/services/planning_service.py returns.
use issue_pilot.Prelude.{
  ℕ, suc, ◌+◌, ◌-◌, ◌≤◌, ◌≡◌, min, Bool, ◌||◌, ltb, List, [], ◌∷◌, map, length, length-take, take,
  All, if-cases, arith,
}
use issue_pilot.Schemas.{EvidenceItem, PlanningEvidenceBundle}
use issue_pilot.PlanningService.{
  PlanningLimits, PlanningEvidenceRecord, PlanningContext, bundled, evidence_item, bounded_loop,
  bounded_evidence, evidence_bundle, load_evidence,
}

-- The characters of all the snippets.
abbrev pub total_characters : List EvidenceItem → ℕ
total_characters [] = 0
total_characters (item ∷ items) = length item.snippet + total_characters items

-- The items with the whole contents.
abbrev pub whole_items : List PlanningEvidenceRecord → List EvidenceItem
whole_items = map (λ r. evidence_item r r.content)

pub record IsBounded (count max_snippet total : ℕ) (items : List EvidenceItem) : Type 0 where
  pub few : length items ≤ count
  pub short : All (λ (item : EvidenceItem). length item.snippet ≤ max_snippet) items
  pub light : total_characters items ≤ total

bounded_loop-IsBounded :
    (max_snippet remaining : ℕ) (truncated : Bool) (records : List PlanningEvidenceRecord)
    → IsBounded
        (length records)
        max_snippet
        remaining
        (bounded_loop max_snippet remaining truncated records).0
unfolding bounded_loop evidence_item
bounded_loop-IsBounded max_snippet remaining truncated [] = record {
  few = omega arith;
  short = tt;
  light = omega arith;
}
bounded_loop-IsBounded max_snippet remaining truncated (r ∷ records) =
    if-cases
      (λ (p : List EvidenceItem × Bool). IsBounded (suc (length records)) max_snippet remaining p.0)
      (ltb (min max_snippet remaining) 1) _ _
      (λ _. record { few = omega arith; short = tt; light = omega arith })
      λ _.
        let rest =
          bounded_loop-IsBounded max_snippet
            (remaining - length (take (min max_snippet remaining) r.content))
            (truncated
              || ltb (length (take (min max_snippet remaining) r.content)) (length r.content))
            records in
        let taken = length-take (min max_snippet remaining) r.content in
        record {
          few = omega (arith, rest.few);
          short = (omega (arith, taken), rest.short);
          light = omega (arith, taken, rest.light);
        }

module _ (sha256 : List EvidenceItem → ℕ) (workspace_at : ℕ → ℕ → Bool) (context : PlanningContext)
    (limits : PlanningLimits) (bundle : PlanningEvidenceBundle)
    (loaded : load_evidence sha256 workspace_at context limits ≡ bundled bundle) where
  from_loop :
      (bundle.evidence ≡ (bounded_evidence context.evidence limits).0)
      × (bundle.evidence_truncated ≡ (bounded_evidence context.evidence limits).1)
  unfolding load_evidence evidence_bundle
  from_loop = ground arith

  -- A bundle that `load_evidence` returns has at most `evidence_limit` items, each with at most
  -- `max_snippet_characters` characters, and at most `max_evidence_characters` in all.
  pub load_evidence-IsBounded :
      IsBounded limits.evidence_limit limits.max_snippet_characters limits.max_evidence_characters
        bundle.evidence
  unfolding bounded_evidence
  load_evidence-IsBounded =
      let loop =
        bounded_loop-IsBounded limits.max_snippet_characters limits.max_evidence_characters
          (ltb limits.evidence_limit (length context.evidence))
          (take limits.evidence_limit context.evidence) in
      rw from_loop.0 (record {
        few = omega (arith, loop.few, length-take limits.evidence_limit context.evidence);
        short = loop.short;
        light = loop.light;
      })

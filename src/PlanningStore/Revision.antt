-- ===== src/PlanningStore/Revision.antt =====
-- On `persist_revision` of backend/app/services/planning_store.py.
use issue_pilot.Prelude.{
  ℕ, ◌+◌, ◌≤◌, ◌≡◌, String, none, some, List, [], ◌∷◌, ◌++◌, Bool, true, false, ◌&&◌, ◌||◌, ◌==◌,
}
use issue_pilot.Prelude.Table.{find, count, exists, modify}
use issue_pilot.Status.{
  TaskStatus, Action, PlanStatus, decision_is_pending, action_eq, plan_is_proposed,
}
use issue_pilot.Schemas.{PlanningEvidenceBundle, ImplementationPlanDraft}
use issue_pilot.Db.{
  Db, Task, PlanningRun, ImplementationPlan, PlanningDecision, task_key, plan_key, decision_key,
}
use issue_pilot.PlanningStore.{
  mark, decide_plan, apply_decision_row, proposed_of, matches_bundle, revision_record,
}
use issue_pilot.PlanningStore.Verdict.{Locked}

-- The rows that a plan with the version after `previous` would clash with, one pending aside.
abbrev pub taken : ℕ → ℕ → ℕ → ImplementationPlan → Bool
taken plan_id run version p = p.id == plan_id || (p.run_id == run && p.version == version)

-- A decision that asks for changes to the only proposed plan of its run, with the evidence that the
-- run was planned from.
pub record Revisable (d : ℕ) (bundle : PlanningEvidenceBundle) (db : Db) (x : PlanningDecision)
    (task : Task) (previous : ImplementationPlan) (run : PlanningRun) : Type 0 where
  pub rows : Locked d db x task previous
  pub pending : decision_is_pending x.status ≡ true
  pub asked : action_eq x.action Action.request_changes ≡ true
  pub proposed : plan_is_proposed previous.status ≡ true
  pub run_row : find (λ (r : PlanningRun). r.id == x.run_id) db.planning_runs ≡ some run
  pub matches : matches_bundle run bundle ≡ true
  pub plan_of_run : previous.run_id ≡ run.id
  pub only_one : count (proposed_of run.id) db.plans ≤ 1

module _ (plan_id now d : ℕ) (bundle : PlanningEvidenceBundle) (draft : ImplementationPlanDraft)
    (feedback : String) (db : Db) (x : PlanningDecision) (task : Task)
    (previous : ImplementationPlan) (run : PlanningRun)
    (r : Revisable d bundle db x task previous run)
    (fresh : exists (taken plan_id run.id (previous.version + 1)) db.plans ≡ false) where
  abbrev next_plan : ImplementationPlan
  next_plan = revision_record plan_id run.id previous.id (previous.version + 1) draft feedback

  abbrev superseded : List ImplementationPlan
  superseded = modify plan_key previous.id (decide_plan PlanStatus.superseded now) db.plans

  abbrev after : Db
  after = record db {
    plans = superseded ++ next_plan ∷ [];
    decisions = modify decision_key d (apply_decision_row now) db.decisions;
    tasks = modify task_key task.id (mark TaskStatus.waiting_approval none none) db.tasks;
  }

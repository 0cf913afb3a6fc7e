-- ===== src/System/Planning.antt =====
-- `persist_planning` against the invariant of the workflow.
use issue_pilot.Prelude.{
  ℕ, ◌≡◌, refl, sym, subst, none, String, List, [], ◌∷◌, ◌∙◌, All, Bool-cases, ==_iff, inl, inr,
  Bool, true, false, ◌==◌, arith,
}
use Prim.Native.Nat.{zero-le}
use mathlib.Core.Bool.{false≢true}
use native.Mathlib.Nat.{le_of_eq}
use issue_pilot.Prelude.Table.{count, exists, find, modify}
use issue_pilot.Status.{TaskStatus, is_waiting_approval}
use issue_pilot.Schemas.{PlanningEvidenceBundle, RequirementAnalysisDraft, ImplementationPlanDraft}
use issue_pilot.Db.{
  Db, PlanningRun, PlanningDecision, task_key, insert_plan, insert-ok, insert_planning_run,
  insert_analysis,
}
use issue_pilot.Transaction.{Ends, Ends-ok, Ends-bind}
use issue_pilot.PlanningStore.{
  mark, run_of_task, require_current_context, persist_planning, planning_run,
}
use issue_pilot.System.Invariant.{Inv, IsSound, pending_on, is_authorised}
use issue_pilot.System.Tables.{Inv-mark, Inv-plan}

-- A task without a planning run has no pending decision.
unplanned_clear :
    (t : ℕ) (rs : List PlanningRun) (ds : List PlanningDecision)
    → All (λ d. exists (run_of_task d.task_id) rs ≡ true) ds
    → exists (run_of_task t) rs ≡ false
    → count (pending_on t) ds ≡ 0
unfolding count
unplanned_clear t rs [] h none_ = refl
unplanned_clear t rs (d ∷ ds) (p, h) fresh = elim (Bool-cases (d.task_id == t)) [
  | inl e ↦ absurd (
      false≢true
        (sym fresh ∙ subst (λ j. exists (run_of_task j) rs ≡ true) ((==_iff d.task_id t).0 e) p))
  | inr e ↦ rw e (omega (arith, unplanned_clear t rs ds h fresh))
]

exists-weaken {ℓ} :
    {A : Type ℓ} (p q : A → Bool) (rows : List A)
    → ((r : A) → p r ≡ true → q r ≡ true)
    → exists q rows ≡ false
    → exists p rows ≡ false
unfolding find
exists-weaken p q [] sub h = refl
exists-weaken p q (r ∷ rows) sub h = ground (arith, sub r, exists-weaken p q rows sub)

pub persist_planning-IsSound :
    (run_id plan_id : ℕ) (bundle : PlanningEvidenceBundle) (analysis : RequirementAnalysisDraft)
    (plan : ImplementationPlanDraft) (provider model version : String) (db : Db)
    → IsSound db
    → Ends IsSound (persist_planning run_id plan_id bundle analysis plan provider model version db)
unfolding persist_planning planning_run insert_planning_run is_waiting_approval is_authorised
persist_planning-IsSound run_id plan_id bundle analysis plan provider model version db h =
    Ends-bind (require_current_context bundle db) _ λ u current.
      Ends-bind (insert_planning_run _ _) _ λ runs inserted.
        Ends-bind (insert_analysis _ _) _ λ analyses _. Ends-bind (insert_plan _ _) _ λ plans _.
          Ends-ok _ _ (
            subst
              (λ rs.
                Inv
                  (modify task_key bundle.task_id (mark TaskStatus.waiting_approval none none)
                    db.tasks)
                  rs db.decisions db.implementation_runs)
              (sym (insert-ok _ _ _ runs inserted).0)
              (Inv-plan _ _ _ _
                (waits (
                  exists-weaken (run_of_task bundle.task_id) _ db.planning_runs
                    (λ r e. ground arith) (insert-ok _ _ _ runs inserted).1))
                _))
  where
    waits :
        exists (run_of_task bundle.task_id) db.planning_runs ≡ false
        → Inv
            (modify task_key bundle.task_id (mark TaskStatus.waiting_approval none none) db.tasks)
            db.planning_runs
            db.decisions
            db.implementation_runs
    waits fresh =
        Inv-mark _ _ _ _ h bundle.task_id (mark TaskStatus.waiting_approval none none) (λ y. refl)
          λ y e. (le_of_eq (unplanned_clear bundle.task_id _ _ h.decided_planned fresh), zero-le)

-- ===== src/PlanningStore/Judged.antt =====
-- On every outcome of `apply_terminal_decision` of backend/app/services/planning_store.py.
use issue_pilot.Prelude.{
  ℕ, ◌≡◌, ◌≢◌, ◌⊎◌, inl, inr, refl, sym, subst, ap, ◌∙◌, ◌&&◌, true, false, Bool-cases, arith,
}
use issue_pilot.Status.{
  Action, PlanStatus, TaskStatus, DecisionStatus, decision_is_pending, decision_is_applied,
  action_eq, plan_is_proposed,
}
use issue_pilot.Result.{
  Error, Result, ok, err, planning_conflict, decision_already_applied, approval_not_ready,
}
use issue_pilot.Db.{Db, Task, ImplementationPlan, PlanningDecision}
use issue_pilot.PlanningStore.{
  require_pending_action, plan_verdict, task_verdict, apply_terminal_decision,
}
use issue_pilot.PlanningStore.Verdict.{
  Locked, Decided, lock_decision-Locked, apply_terminal_decision_lem, apply_terminal_decision_again,
}
use issue_pilot.PlanningStore.Idempotence.{action_eq_refl}

-- What a terminal action makes of the plan and of the task.
abbrev pub plan_after : Action → PlanStatus
plan_after Action.approve = PlanStatus.approved
plan_after Action.request_changes = PlanStatus.rejected
plan_after Action.reject = PlanStatus.rejected

abbrev pub task_after : Action → TaskStatus
task_after Action.approve = TaskStatus.approved
task_after Action.request_changes = TaskStatus.rejected
task_after Action.reject = TaskStatus.rejected

-- The decision is pending and of this action, and its plan is proposed.
abbrev pub IsJudgeable : Action → PlanningDecision → ImplementationPlan → Type 0
IsJudgeable action x plan =
    (x.status ≡ DecisionStatus.pending) × (x.action ≡ action) × (plan.status ≡ PlanStatus.proposed)

-- What a call returns or raises, for a decision with these rows.
abbrev pub Judged :
    (now d : ℕ)
    → Action
    → Db
    → PlanningDecision
    → Task
    → ImplementationPlan
    → Result (Unit {0} × Db)
    → Type 0
Judged now d action db x task plan (ok (_, db')) =
    ((x.status ≡ DecisionStatus.applied) × (db' ≡ db))
    ⊎ (IsJudgeable action x plan
        × Decided now d (plan_after action) (task_after action) db' x task plan)
Judged now d action db x task plan (err _) =
    (x.status ≢ DecisionStatus.applied) × (¬ IsJudgeable action x plan)

verdict_after :
    (action : Action)
    → (plan_verdict action ≡ plan_after action) × (task_verdict action ≡ task_after action)
unfolding plan_verdict task_verdict
verdict_after Action.approve = (refl, refl)
verdict_after Action.request_changes = (refl, refl)
verdict_after Action.reject = (refl, refl)

status_applied : (s : DecisionStatus) → decision_is_applied s ≡ true → s ≡ DecisionStatus.applied
unfolding decision_is_applied
status_applied DecisionStatus.pending h = ground (arith, h)
status_applied DecisionStatus.applied h = refl
status_applied DecisionStatus.failed h = ground (arith, h)

status_pending : (s : DecisionStatus) → decision_is_pending s ≡ true → s ≡ DecisionStatus.pending
unfolding decision_is_pending
status_pending DecisionStatus.pending h = refl
status_pending DecisionStatus.applied h = ground (arith, h)
status_pending DecisionStatus.failed h = ground (arith, h)

pub status_proposed : (s : PlanStatus) → plan_is_proposed s ≡ true → s ≡ PlanStatus.proposed
unfolding plan_is_proposed
status_proposed PlanStatus.proposed h = refl
status_proposed PlanStatus.approved h = ground (arith, h)
status_proposed PlanStatus.rejected h = ground (arith, h)
status_proposed PlanStatus.superseded h = ground (arith, h)

pub same_action : (a b : Action) → action_eq a b ≡ true → a ≡ b
unfolding action_eq
same_action Action.approve Action.approve h = refl
same_action Action.approve Action.request_changes h = ground (arith, h)
same_action Action.approve Action.reject h = ground (arith, h)
same_action Action.request_changes Action.approve h = ground (arith, h)
same_action Action.request_changes Action.request_changes h = refl
same_action Action.request_changes Action.reject h = ground (arith, h)
same_action Action.reject Action.approve h = ground (arith, h)
same_action Action.reject Action.request_changes h = ground (arith, h)
same_action Action.reject Action.reject h = refl

module _ (now d : ℕ) (action : Action) (db : Db) (x : PlanningDecision) (task : Task)
    (plan : ImplementationPlan) (l : Locked d db x task plan) where
  judgeable-tests :
      IsJudgeable action x plan
      → (decision_is_pending x.status ≡ true)
        × (action_eq x.action action ≡ true)
        × (plan_is_proposed plan.status ≡ true)
  unfolding decision_is_pending plan_is_proposed
  judgeable-tests (pending, asked, proposed) = (
    ap decision_is_pending pending,
    ap (λ a. action_eq a action) asked ∙ action_eq_refl action,
    ap plan_is_proposed proposed,
  )

  settled :
      decision_is_pending x.status ≡ true
      → action_eq x.action action ≡ true
      → plan_is_proposed plan.status ≡ true
      → Judged now d action db x task plan (apply_terminal_decision now d action db)
  settled p a q =
      let (db', done, decided) = apply_terminal_decision_lem now d action db x task plan l p a q in
      subst (Judged now d action db x task plan) (sym done) (
        inr (
          (status_pending x.status p, same_action x.action action a, status_proposed plan.status q),
          subst (λ s. Decided now d (plan_after action) s db' x task plan) (verdict_after action).1
              (subst (λ s. Decided now d s (task_verdict action) db' x task plan)
                (verdict_after action).0 decided),
        ))

  refused :
      (e : Error)
      → apply_terminal_decision now d action db ≡ err e
      → decision_is_applied x.status ≡ false
      → (¬ IsJudgeable action x plan)
      → Judged now d action db x task plan (apply_terminal_decision now d action db)
  unfolding decision_is_applied
  refused e raised n not_judgeable =
      subst (Judged now d action db x task plan) (sym raised)
        ((λ s. ground (arith, n, ap decision_is_applied s)), not_judgeable)

  not_pending :
      decision_is_applied x.status ≡ false
      → decision_is_pending x.status ≡ false
      → apply_terminal_decision now d action db ≡ err (planning_conflict decision_already_applied)
  unfolding apply_terminal_decision require_pending_action
  not_pending n p = ground (arith, lock_decision-Locked d db x task plan l)

  not_asked :
      decision_is_applied x.status ≡ false
      → decision_is_pending x.status ≡ true
      → (action_eq x.action action && plan_is_proposed plan.status) ≡ false
      → apply_terminal_decision now d action db ≡ err (planning_conflict approval_not_ready)
  unfolding apply_terminal_decision require_pending_action
  not_asked n p a = ground (arith, lock_decision-Locked d db x task plan l)

  -- For a decision whose decision, task and plan rows exist, a call of `apply_terminal_decision`
  -- succeeds exactly if the decision is applied already, and then writes nothing, or if it is
  -- pending and of this action and its plan is proposed. Then the decision is applied, the plan and
  -- the task are approved by an approval and rejected by any other action, and the task's
  -- failure is cleared. It raises in every other case.
  pub apply_terminal_decision-Judged :
      Judged now d action db x task plan (apply_terminal_decision now d action db)
  apply_terminal_decision-Judged = elim (Bool-cases (decision_is_applied x.status)) [
    | inl a ↦
        subst (Judged now d action db x task plan)
          (sym (apply_terminal_decision_again now d action db x task plan l a))
          (inl (status_applied x.status a, refl))
    | inr n ↦ elim (Bool-cases (decision_is_pending x.status)) [
      | inr p ↦ refused _ (not_pending n p) n (λ j. ground (arith, p, (judgeable-tests j).0))
      | inl p ↦ elim (Bool-cases (action_eq x.action action && plan_is_proposed plan.status)) [
        | inl q ↦ settled p (ground (arith, q)) (ground (arith, q))
        | inr q ↦
            refused _ (not_asked n p q) n
              (λ j. ground (arith, q, (judgeable-tests j).1, (judgeable-tests j).2))
      ]
    ]
  ]

-- ===== src/PlanningService/Decisions/Examples.antt =====
-- The theorem on `process_decision`, for an approval whose graph has no answer of the model.
use issue_pilot.Prelude.{◌≡◌, refl, String, true, false}
use issue_pilot.Prelude.Table.{find}
use issue_pilot.Status.{Action, decision_is_pending, action_eq}
use issue_pilot.Result.{ok}
use issue_pilot.PlanningStore.{
  load_decision, lock_decision, decision_response, PlanningDecisionResponse,
}
use issue_pilot.PlanningStore.Examples.{decided_db, decision, pending_task, first_plan}
use issue_pilot.PlanningService.Decisions.{
  Step, done, failed, resume_after_checks, process_decision, llm_unavailable,
}
use issue_pilot.PlanningService.Decisions.Recorded.{
  HasDecision, Processed, process_decision-FailedWith,
}

abbrev message : String → String
message code = code

abbrev passes : Step
passes db = (done tt, db)

abbrev no_model : Step
no_model db = (failed llm_unavailable, db)

abbrev approval : PlanningDecisionResponse
approval = decision_response (decision Action.approve) pending_task.status

loads : load_decision 20 (decided_db Action.approve) ≡ ok approval
unfolding load_decision find
loads = refl

is_pending : decision_is_pending (decision Action.approve).status ≡ true
unfolding decision_is_pending
is_pending = refl

has_decision :
    HasDecision 20
      (decision Action.approve)
      pending_task
      (resume_after_checks message false no_model approval (passes (decided_db Action.approve))).1
unfolding find lock_decision resume_after_checks action_eq decision_response
has_decision = record { plan = first_plan; locked = refl; decision_row = refl; task_row = refl }

process_decision-FailedWith_example :
    Processed message 20
      (decision Action.approve)
      pending_task
      (decided_db Action.approve)
      (resume_after_checks message false no_model approval (passes (decided_db Action.approve)))
      approval.status
      (process_decision message passes no_model false false 20 (decided_db Action.approve))
unfolding decision_response
process_decision-FailedWith_example =
    process_decision-FailedWith message passes no_model false approval (decision Action.approve)
      pending_task (decided_db Action.approve) loads has_decision is_pending

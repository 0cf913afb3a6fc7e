-- ===== src/Status.antt =====
-- The status columns and their values: backend/app/schemas/task.py (TaskStatus), and the string
-- values that planning_store.py and implementation_store.py write. `==` against one value is a test
-- by clauses.
use issue_pilot.Prelude.{Bool, true, false}

pub data TaskStatus : Type 0 where
  created queued cloning cloned indexing indexed retrieving retrieved : TaskStatus
  analyzing waiting_approval decision_pending revising approved rejected : TaskStatus
  recovery_blocked implementation_pending generating_patch patch_ready : TaskStatus
  test_pending testing tested test_failed failed : TaskStatus

unfoldable pub is_analyzing : TaskStatus → Bool
is_analyzing TaskStatus.analyzing = true
is_analyzing _ = false

unfoldable pub is_waiting_approval : TaskStatus → Bool
is_waiting_approval TaskStatus.waiting_approval = true
is_waiting_approval _ = false

unfoldable pub is_approved : TaskStatus → Bool
is_approved TaskStatus.approved = true
is_approved _ = false

unfoldable pub is_patch_ready : TaskStatus → Bool
is_patch_ready TaskStatus.patch_ready = true
is_patch_ready _ = false

-- PlanningDecisionAction of backend/app/schemas/planning.py
pub data Action : Type 0 where
  approve request_changes reject : Action

unfoldable pub action_eq : Action → Action → Bool
action_eq Action.approve Action.approve = true
action_eq Action.request_changes Action.request_changes = true
action_eq Action.reject Action.reject = true
action_eq _ _ = false

pub data PlanStatus : Type 0 where
  proposed approved rejected superseded : PlanStatus

unfoldable pub plan_is_proposed : PlanStatus → Bool
plan_is_proposed PlanStatus.proposed = true
plan_is_proposed _ = false

unfoldable pub plan_is_approved : PlanStatus → Bool
plan_is_approved PlanStatus.approved = true
plan_is_approved _ = false

pub data DecisionStatus : Type 0 where
  pending applied failed : DecisionStatus

unfoldable pub decision_is_pending : DecisionStatus → Bool
decision_is_pending DecisionStatus.pending = true
decision_is_pending _ = false

unfoldable pub decision_is_applied : DecisionStatus → Bool
decision_is_applied DecisionStatus.applied = true
decision_is_applied _ = false

pub data RunStatus : Type 0 where
  pending generating_patch patch_ready test_pending testing tested test_failed : RunStatus
  failed recovery_blocked : RunStatus

-- status in {"pending", "generating_patch"}
unfoldable pub run_can_generate : RunStatus → Bool
run_can_generate RunStatus.pending = true
run_can_generate RunStatus.generating_patch = true
run_can_generate _ = false

unfoldable pub run_is_generating : RunStatus → Bool
run_is_generating RunStatus.generating_patch = true
run_is_generating _ = false

unfoldable pub run_is_patch_ready : RunStatus → Bool
run_is_patch_ready RunStatus.patch_ready = true
run_is_patch_ready _ = false

unfoldable pub run_is_test_pending : RunStatus → Bool
run_is_test_pending RunStatus.test_pending = true
run_is_test_pending _ = false

-- status in {"tested", "test_failed", "failed"}
unfoldable pub run_is_finished : RunStatus → Bool
run_is_finished RunStatus.tested = true
run_is_finished RunStatus.test_failed = true
run_is_finished RunStatus.failed = true
run_is_finished _ = false

pub data TestStatus : Type 0 where
  pending running passed failed : TestStatus

unfoldable pub test_is_pending : TestStatus → Bool
test_is_pending TestStatus.pending = true
test_is_pending _ = false

unfoldable pub test_is_running : TestStatus → Bool
test_is_running TestStatus.running = true
test_is_running _ = false

-- status in {"passed", "failed"}
unfoldable pub test_is_finished : TestStatus → Bool
test_is_finished TestStatus.passed = true
test_is_finished TestStatus.failed = true
test_is_finished _ = false

-- ===== src/WorkerQueue/Items.antt =====
-- The items of the queues of implementation_queue.py and planning_queue.py in backend/app/workers,
-- whose public methods only build the item that `_enqueue` is given.
use issue_pilot.Prelude.{ℕ, String, Option, none, some, ◌||◌, str_eq, if◌then◌else◌}

pub record ImplementationWorkItem : Type 0 where
  pub kind : String
  pub item_id : ℕ

pub record PlanningWorkItem : Type 0 where
  pub kind : String
  pub item_id : ℕ

unfoldable pub enqueue_implementation : ℕ → ImplementationWorkItem
enqueue_implementation run_id = record { kind = "implementation"; item_id = run_id }

unfoldable pub enqueue_test : ℕ → ImplementationWorkItem
enqueue_test test_id = record { kind = "test"; item_id = test_id }

-- `none` for ValueError
unfoldable pub enqueue_work : String → ℕ → Option ImplementationWorkItem
enqueue_work kind item_id =
    if str_eq kind "implementation" || str_eq kind "test"
    then some (record { kind = kind; item_id = item_id })
    else none

unfoldable pub enqueue_decision : ℕ → PlanningWorkItem
enqueue_decision decision_id = record { kind = "decision"; item_id = decision_id }

unfoldable pub enqueue_task : ℕ → PlanningWorkItem
enqueue_task task_id = record { kind = "task"; item_id = task_id }

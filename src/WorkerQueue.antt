-- ===== src/WorkerQueue.antt =====
-- The workers' queues: backend/app/workers/implementation_queue.py, planning_queue.py and
-- repository_queue.py, which differ in the items and in the failure handler. `pending` is what the
-- asyncio.Queue holds, with `none` for the sentinel of `stop`, and `unfinished` its count of
-- tasks that are not done. `called` is the calls that the processor received, oldest first, and
-- `reported` those of the failure handler. The coroutines run on one event loop, so a
-- run is the sequence of the pieces of code between two awaits, the events below.
mod Items
pub mod Counts
pub mod Fifo
pub mod Drain
pub mod Pending
pub mod Startup
mod Examples
unfoldable pub use Items.*
use issue_pilot.Prelude.{
  ℕ, zero, suc, ◌-◌, ◌+◌, Option, none, some, List, [], ◌∷◌, ◌++◌, Bool, true, false, not, ◌&&◌,
  ◌||◌, leb, ltb, ◌==◌, if◌then◌else◌, length,
}

-- What became of a call of the processor.
pub data Outcome {ℓ} (E : Type ℓ) : Type ℓ where
  returned : Outcome E
  raised : E → Outcome E

-- The worker: `_worker` is None, the task waits for an item, it is in a call of the processor or
-- of the failure handler, or it has returned.
pub data Worker {ℓ} (A : Type ℓ) : Type ℓ where
  absent waiting ended : Worker A
  busy handling : A → Worker A

-- Where the call of `stop` is; the application makes one at a time.
pub data Stop : Type 0 where
  no_stop joining putting awaiting : Stop

pub data Submission : Type 0 where
  refused full accepted : Submission

pub data Event {ℓ κ} (A : Type ℓ) (E : Type κ) : Type (ℓ ⊔ κ) where
  start_called stop_called join_returned sentinel_put : Event A E
  item_received handler_ended worker_awaited : Event A E
  submitted : A → Event A E
  call_ended : Outcome E → Event A E

pub record Queue {ℓ κ} (A : Type ℓ) (E : Type κ) : Type (ℓ ⊔ κ) where
  pub enabled : Bool
  pub capacity : ℕ
  pub has_failure_handler : Bool
  pub pending : List (Option A)
  pub unfinished : ℕ
  pub worker : Worker A
  pub stopping : Stop
  pub called : List A
  pub reported : List (A × E)

module _ {ℓ κ} {A : Type ℓ} {E : Type κ} where
  unfoldable pub new : (capacity : ℕ) (enabled has_failure_handler : Bool) → Queue A E
  new capacity enabled has_failure_handler = record {
    enabled = enabled;
    capacity = capacity;
    has_failure_handler = has_failure_handler;
    pending = [];
    unfinished = 0;
    worker = absent;
    stopping = no_stop;
    called = [];
    reported = [];
  }

  -- asyncio.Queue.full: a capacity of 0 is no bound.
  unfoldable pub is_full : Queue A E → Bool
  is_full q = not (q.capacity == 0) && leb q.capacity (length q.pending)

  -- asyncio.Queue.put_nowait, when there is room.
  unfoldable pub put_nowait : Option A → Queue A E → Queue A E
  put_nowait item q = record q { pending = q.pending ++ item ∷ []; unfinished = suc q.unfinished }

  unfoldable pub enqueue : A → Queue A E → Submission × Queue A E
  enqueue item q =
      if not q.enabled
      then (refused, q)
      else if is_full q
      then (full, q)
      else (accepted, put_nowait (some item) q)

  unfoldable pub start : Queue A E → Queue A E
  start q = elim q.worker [
    | absent ↦ if q.enabled then record q { worker = waiting } else q
    | _ ↦ q
  ]

  -- `stop` up to the first await.
  unfoldable pub stop : Queue A E → Queue A E
  stop q = elim q.worker [
    | absent ↦ q
    | _ ↦ elim q.stopping [ no_stop ↦ record q { stopping = joining } | _ ↦ q ]
  ]

  unfoldable pub join_return : Queue A E → Queue A E
  join_return q = elim q.stopping [
    | joining ↦ if q.unfinished == 0 then record q { stopping = putting } else q
    | _ ↦ q
  ]

  unfoldable pub put_sentinel : Queue A E → Queue A E
  put_sentinel q = elim q.stopping [
    | putting ↦ if is_full q then q else record (put_nowait none q) { stopping = awaiting }
    | _ ↦ q
  ]

  -- `await self._worker` returns, and the worker is forgotten.
  unfoldable pub forget_worker : Queue A E → Queue A E
  forget_worker q = elim q.stopping [
    | awaiting ↦ elim q.worker [ ended ↦ record q { worker = absent; stopping = no_stop } | _ ↦ q ]
    | _ ↦ q
  ]

  -- `get` returns the first item. A sentinel ends the worker, and `finally` marks it done.
  unfoldable pub take_item : List (Option A) → Queue A E → Queue A E
  take_item [] q = q
  take_item (none ∷ rest) q = record q {
    pending = rest;
    unfinished = q.unfinished - 1;
    worker = ended;
  }
  take_item (some item ∷ rest) q = record q {
    pending = rest;
    worker = busy item;
    called = q.called ++ item ∷ [];
  }

  unfoldable pub receive : Queue A E → Queue A E
  receive q = elim q.worker [ waiting ↦ take_item q.pending q | _ ↦ q ]

  -- `finally: self._queue.task_done()`, and the next turn of the loop.
  unfoldable pub task_done : Queue A E → Queue A E
  task_done q = record q { unfinished = q.unfinished - 1; worker = waiting }

  -- `_handle_failure` up to its await.
  unfoldable pub handle_failure : A → E → Queue A E → Queue A E
  handle_failure item error q =
      if q.has_failure_handler
      then record q { worker = handling item; reported = q.reported ++ (item, error) ∷ [] }
      else task_done q

  unfoldable pub end_call : Outcome E → Queue A E → Queue A E
  end_call outcome q = elim q.worker [
    | busy item ↦ elim outcome [
      | returned ↦ task_done q
      | raised error ↦ handle_failure item error q
    ]
    | _ ↦ q
  ]

  -- The handler has returned, or raised, which is only logged.
  unfoldable pub end_handler : Queue A E → Queue A E
  end_handler q = elim q.worker [ handling _ ↦ task_done q | _ ↦ q ]

  unfoldable pub step : Event A E → Queue A E → Queue A E
  step start_called q = start q
  step stop_called q = stop q
  step join_returned q = join_return q
  step sentinel_put q = put_sentinel q
  step item_received q = receive q
  step handler_ended q = end_handler q
  step worker_awaited q = forget_worker q
  step (submitted item) q = (enqueue item q).1
  step (call_ended outcome) q = end_call outcome q

  unfoldable pub run : List (Event A E) → Queue A E → Queue A E
  run [] q = q
  run (event ∷ events) q = run events (step event q)

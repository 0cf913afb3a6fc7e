-- ===== src/WorkerQueue/Startup.antt =====
-- `_enqueue_pending_implementation` of backend/app/main.py: the work that was left open by an earlier process is
-- put into the new queue before its worker can run.
use issue_pilot.Prelude.{ℕ, String, Option, none, some, List, [], ◌∷◌, Bool, true, false}
use issue_pilot.Db.{Db}
use issue_pilot.ImplementationStore.{WorkItem, implementation_work, test_work, pending_work}
use issue_pilot.WorkerQueue.{Queue, Submission, ImplementationWorkItem, enqueue, enqueue_work}

-- How the startup ends: an exception of the queue ends it.
pub data Startup : Type 0 where
  started queue_full unsupported_kind : Startup

-- The pairs that `pending_work` returns.
abbrev pub kind_of : WorkItem → String
kind_of (implementation_work _) = "implementation"
kind_of (test_work _) = "test"

abbrev pub id_of : WorkItem → ℕ
id_of (implementation_work id) = id
id_of (test_work id) = id

-- The item of the queue for a pair.
abbrev pub item_of : WorkItem → ImplementationWorkItem
item_of (implementation_work id) = record { kind = "implementation"; item_id = id }
item_of (test_work id) = record { kind = "test"; item_id = id }

module _ {κ} {E : Type κ} where
  -- The Boolean that a call returns is not read.
  unfoldable pub of_submission :
      Submission × Queue ImplementationWorkItem E → Startup × Queue ImplementationWorkItem E
  of_submission (Submission.full, q) = (queue_full, q)
  of_submission (Submission.refused, q) = (started, q)
  of_submission (Submission.accepted, q) = (started, q)

  -- One call of `enqueue_work`.
  unfoldable pub enqueue_one :
      Option ImplementationWorkItem
      → Queue ImplementationWorkItem E
      → Startup × Queue ImplementationWorkItem E
  enqueue_one none q = (unsupported_kind, q)
  enqueue_one (some item) q = of_submission (enqueue item q)

  abbrev pub after_one :
      Startup × Queue ImplementationWorkItem E
      → (Queue ImplementationWorkItem E → Startup × Queue ImplementationWorkItem E)
      → Startup × Queue ImplementationWorkItem E
  after_one (started, q) next = next q
  after_one (queue_full, q) next = (queue_full, q)
  after_one (unsupported_kind, q) next = (unsupported_kind, q)

  unfoldable pub enqueue_each :
      List WorkItem → Queue ImplementationWorkItem E → Startup × Queue ImplementationWorkItem E
  enqueue_each [] q = (started, q)
  enqueue_each (work ∷ rest) q =
      after_one (enqueue_one (enqueue_work (kind_of work) (id_of work)) q) (enqueue_each rest)

  -- The limit of the query is the capacity of the queue.
  unfoldable pub enqueue_pending_implementation :
      (implementation_enabled : Bool)
      → Db
      → Queue ImplementationWorkItem E
      → Startup × Queue ImplementationWorkItem E
  enqueue_pending_implementation false db q = (started, q)
  enqueue_pending_implementation true db q = enqueue_each (pending_work q.capacity db) q

  -- The queue with more items that wait.
  abbrev pub with_items :
      List (Option ImplementationWorkItem)
      → ℕ
      → Queue ImplementationWorkItem E
      → Queue ImplementationWorkItem E
  with_items pending unfinished q = record q { pending = pending; unfinished = unfinished }

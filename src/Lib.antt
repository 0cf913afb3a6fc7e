-- ===== src/Lib.antt =====
-- IssuePilot: a service that clones a repository, indexes it, plans a change for an issue with a
-- language model, waits for a user's decision, generates a patch and runs the tests. This library
-- models its workflow state, its work queues, the evidence and the references of its plans, its code
-- chunker, the application of patches and the test runner.
--
-- The parts, by file (paths from the root of the repository):
--
--   Schemas, Status       backend/app/schemas/{task,planning,implementation}.py and
--                         backend/app/agents/planning_state.py: payloads, drafts and statuses.
--   Db                    backend/app/models/*.py: the rows, the tables and their unique constraints.
--   Transaction           the try, commit and rollback around each method of a store, and a database
--                         fault that any of them can meet.
--   PlanningStore         backend/app/services/planning_store.py, SqlPlanningStore. Rows has the rows
--                         it writes, Guards its lookups and checks; Submission and Idempotence are
--                         about new decisions, Verdict, Judged and Revision about applying them.
--   ImplementationStore   backend/app/services/implementation_store.py, SqlImplementationStore.
--   PlanningService       backend/app/services/planning_service.py: load_evidence and the bundle of
--                         evidence under its limits; Decisions is process_decision, whose checks and
--                         graph are arguments.
--   PlanningOutputs       backend/app/schemas/planning.py, validate_planning_outputs: the references of
--                         a model's answers.
--   TaskService           backend/app/services/task_service.py.
--   System                the requests of all three over one database, in any order; Invariant states
--                         what they keep, Reach what follows for every database they can reach;
--                         Verified does the same for the runs, the patches and the tests.
--   Chunker               backend/app/retrieval/chunker.py: Source (lines and limits), Windows,
--                         Uncovered, Drafts, Deduplicate and Build.
--   WorkerQueue           backend/app/workers/{implementation,planning,repository}_queue.py: the queue and
--                         its worker as a machine of events; Items has the items; Counts, Fifo and Drain
--                         are about its runs; Startup is _enqueue_pending_implementation of
--                         backend/app/main.py, and Pending the open work it is about.
--   TestRunner            backend/app/services/test_runner.py: Capture reads the output of processes,
--                         Container runs the commands and removes the container; Post reasons on steps.
--   PatchService          backend/app/services/patch_service.py: Files has the worktree and its access;
--                         Originals, Rollback and Accepted are about apply.
--   ImplementationService backend/app/services/implementation_service.py, with resolve_for of
--                         implementation_workspace.py: Scope, Sources, Source (checks), Running (apply_patch
--                         and run_test over the store, the worktree and Docker), Checkpoint (the resuming
--                         of a graph), Requests, Failures, Processing (Reports has the
--                         codes and messages written out).
--   Prelude               tests, lists and tables over native numbers.
--
-- A method keeps the name it has in the source, without a leading underscore. It takes the database
-- and returns the new one or the exception, as a value of Result; the fresh ids and the time that the
-- source draws come as arguments. The body of a method is one transaction and one step:
-- an interleaving of requests is a list of transactions, and what two transactions that run at the same
-- time could see of each other is not modelled. A UUID and
-- a hexadecimal digest are the numbers they denote.
--
-- Tables are lists of rows, oldest first, so the order of created_at is the order of the list. A query
-- for one row takes the first. The methods that are modelled delete no rows. The services that do,
-- those of the code index and of retrieval, replace the rows of a task before it is planned: in System
-- they are the request scan, which leaves any snapshots, indexes and retrieval runs behind; the cascades
-- of foreign keys from these rows are left out.
--
-- The chunker's loop over windows runs on fuel, one unit for each line of the range and one more;
-- build_python_chunks gives the last line number and two. Window ends are found by recursion on the
-- distance from the first line, as the loop counts it down. The texts of the chunker and of the
-- evidence are lists of code points. The file system, the decoding of sources, SHA-256 and str.isspace
-- are a record of functions, Platform, which can fail where the source meets an exception: of the
-- file system, of a codec, or of a text that UTF-8 cannot encode. The digest of the evidence, the state of the working tree and
-- the search for a marker in a text are parameters too.
--
-- The event loop switches between coroutines only at an await, so each event of WorkerQueue is the code
-- between two of them. In TestRunner the outcome of a command is a function of all commands so far,
-- and in PatchService git's answers are a function of the worktree; the file system fails a write by a
-- test on its path and bytes. The cancellation of a task (CancelledError), which no `except Exception`
-- clause catches, is not modelled.
--
-- Not modelled: the HTTP routes and settings, the nodes of the language graphs, retrieval, the parser, the
-- clients of git, the parser and the model server, and the methods of the stores that only read.
pub mod Prelude
pub mod Status
pub mod Result
pub mod Schemas
pub mod Db
pub mod Transaction
pub mod PlanningStore
pub mod PlanningService
pub mod PlanningOutputs
pub mod ImplementationStore
pub mod TaskService
pub mod System
pub mod Chunker
pub mod ImplementationService
pub mod PatchService
pub mod TestRunner
pub mod WorkerQueue

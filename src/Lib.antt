-- ===== src/Lib.antt =====
-- A model of the core of task-maker-rust, which evaluates the tasks of programming contests: a client
-- sends a DAG of executions, a scheduler gives the groups that can run to workers, and a cache
-- answers those that ran before.
--
-- The parts and the files that model them (paths from the root of the repository):
-- Dag: the data of task-maker-dag/src. Limits.antt and Execution.antt are execution.rs and file.rs,
--   Group.antt is execution_group.rs (`dependencies`, `outputs`), Data.antt and Config.antt are dag.rs
--   (`ExecutionDAG`, `ExecutionDAGConfig`, `CacheMode::try_from`), Builders.antt the methods of
--   `Execution` that build one. Built.antt holds lemmas about them.
-- CheckDag: task-maker-exec/src/check_dag.rs. Errors.antt is `DAGError` and the local variables of
--   `check_dag`, Adding.antt its loops over the groups and the provided files, Visiting.antt the visit
--   and the rest. Remaining and Ending are about the end of the visit, Learning and Known
--   about what the check knows, Order, Visits, Rounds, Collected and Accepted about what it accepts.
-- Cache: task-maker-cache/src. Key.antt is key.rs, Entry.antt and Compatible.antt are entry.rs
--   (`CacheEntry::outputs`, `same_limits`, `is_compatible`), Query.antt is lib.rs (`Cache::insert`,
--   `Cache::get`). Limits, Answers, Stored, RoundTrip, Distinct, Returns and Gained
--   hold proofs.
-- Scheduler: task-maker-exec/src/scheduler.rs. State.antt is the state and the messages, Heap.antt
--   the queue of ready executions, Files.antt `send_file`, `file_failed` and the first part of
--   `file_success`, Jobs.antt `assign_jobs`, Completion.antt `exec_completed`, `cache_execution` and
--   `schedule_cached`, Clients.antt and Handlers.antt the handlers of the messages and `run`.
--   Termination, Soundness, Conserving, Caching and Safety hold proofs, Outcome.antt and Frame.antt their common
--   lemmas.
-- Store: task-maker-store/src. Index.antt is index.rs (`touch`, `add`, `flush`), Handles.antt the
--   reference counts of lib.rs (`FileStoreHandle::new`, `clone`, `drop`), Disk.antt `FileStore`
--   (`store`, `get`, `maybe_flush`, `drop`) with the files on disk. Weights, Loop, Held, Flushing,
--   Newest, Counting, Storing, Guarantee, Summed, Sizes and Lost hold proofs.
-- Scoring: the scores of task-maker-format/src. Checks.antt is solution.rs (the results of testcases
--   and `SolutionCheckResult`), Numbers.antt the operations of `f64`, Aggregate.antt ioi/dag/mod.rs
--   (`aggregate`), Manager.antt ioi/mod.rs (`ScoreManager`). Minimal, Outcomes, Consistent, Scored,
--   Kept, Started, Filled, Announced, Opening and Bounds hold proofs.
-- Ui: the state of the user interface on an IOI task. Status.antt is testcase_score_status.rs and
--   what a message changes of a testcase in ioi/ui_state.rs, State.antt the rest of `UIState::apply`,
--   Checked.antt what `run_solution_checks` does for a check and a subtask. Known, Applied and
--   Judged hold proofs.
-- Base: maps, sets, lists, results and tests that the parts share. Samples.antt: inputs of the tests.
--
-- The scheduler uses the cache by the record `Scheduler.State.Cache` of two functions. The proofs that
-- need more of it take `CacheLaws` as an argument, which the modelled cache fills
-- (Scheduler/Caching.antt): it is a cache file and the number of its calls, each of which sees the
-- file store of its time. The cache uses the file store by the record
-- `Cache.Entry.FileStore`, and the library functions that it calls by `Cache.Key.Names`. UUIDs, file
-- handles and the keys of files in the store are numbers (a handle stands for its key), paths are
-- texts. `f64` is a type with an instance of `Base.Float` in the limits, with laws
-- `Cache.Limits.FloatLaws`, of `Scoring.Numbers.Score` in the scores, with laws
-- `Scoring.Bounds.ScoreLaws`, and of `Ui.Status.Comparisons` in the user interface. The calls of the
-- file system that the store makes are the arguments of its definitions. `u64` sums and differences
-- of memory wrap around at 2^64, the `i32` that counts scores at 2^32. Maps and sets are lists without an order that a proof relies on. The
-- channels of the scheduler are the messages that were sent and whether the receiver is still there;
-- the clock is a number that comes with each message.
--
-- Fuel: `file_failed` has as much as there are groups that wait for files, `schedule_cached` as much as
-- there are groups that wait or are ready, the visit of `check_dag` two rounds more than there are
-- groups that wait or are ready, the loop of `flush` one turn more than there are files in the
-- index. The fuel is computed from the state, so that the recursion of the source is not cut off;
-- what is proved of it stands below.
--
-- Not modelled: the callbacks of the client, the files of the cache and of the index of the store on
-- disk, the directories of the store, the workers with their sandbox, the threads and sockets of
-- executor and client, the building and parsing of tasks, the compilations, booklets and diagnostics
-- of the user interface, the loops of `run_solution_checks` over solutions, checks and subtasks, the
-- languages, and the command line.
pub mod Base
pub mod Dag
pub mod Cache
pub mod CheckDag
pub mod Scheduler
pub mod Store
pub mod Scoring
pub mod Ui
pub mod Samples

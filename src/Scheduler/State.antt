-- ===== src/Scheduler/State.antt =====
-- The state of the scheduler, its messages, and the cache that it uses.
use task_maker_rust.Base.{
  ℕ, String, Bool, Option, none, some, List, [], ◌∷◌, ◌++◌, if◌then◌else◌, Result, ok, err,
  is_empty, ◌&&◌,
}
use task_maker_rust.Base.Tests.{nat_eq}
use task_maker_rust.Base.HashMap
use task_maker_rust.Base.HashMap.{HashMap}
use task_maker_rust.Base.HashSet.{HashSet}
use task_maker_rust.Dag.Execution.{ExecutionResult}
use task_maker_rust.Dag.Group.{ExecutionGroup}
use task_maker_rust.Dag.Data.{ExecutionDagData, ExecutionDagWatchSet}
use task_maker_rust.Scheduler.Heap.{ReadyExec}

-- How a handler can fail. `panic` is a lookup by index of a missing key, `out_of_fuel` is no
-- outcome of the source.
pub data Error : Type 0 where
  panic send_failed invalid_worker_result out_of_fuel : Error

pub data CacheResult (F : Type 0) : Type 0 where
  miss : CacheResult F
  hit : (result : List (ExecutionResult F)) (outputs : HashMap ℕ ℕ) → CacheResult F

-- `Cache` with the file store that it consults; `none` is a panic. A file handle is the key of
-- its file in the store.
pub record Cache (F C : Type 0) : Type 0 where
  pub lookup : C → ExecutionGroup F → HashMap ℕ ℕ → Option (CacheResult F × C)
  pub store : C → ExecutionGroup F → HashMap ℕ ℕ → List (ExecutionResult F) → Option C

pub record ClientInfo : Type 0 where
  pub uuid : ℕ
  pub name : String

pub record WorkerCurrentJobStatus : Type 0 where
  pub job : String
  pub client : ClientInfo
  pub duration : ℕ

pub record ExecutorWorkerStatus : Type 0 where
  pub uuid : ℕ
  pub name : String
  pub current_job : Option WorkerCurrentJobStatus

pub record ExecutorStatus : Type 0 where
  pub connected_workers : List ExecutorWorkerStatus
  pub ready_execs : ℕ
  pub waiting_execs : ℕ

-- `SchedulerExecutorMessageData`, the messages to a client.
pub data ExecutorMessage (F : Type 0) : Type 0 where
  execution_started : (execution worker : ℕ) → ExecutorMessage F
  execution_done : (execution : ℕ) (result : List (ExecutionResult F)) → ExecutorMessage F
  execution_skipped : (execution : ℕ) → ExecutorMessage F
  file_ready : (file handle : ℕ) (successful urgent : Bool) → ExecutorMessage F
  evaluation_done : ExecutorMessage F
  status : ExecutorStatus → ExecutorMessage F

pub record WorkerJob (F : Type 0) : Type 0 where
  pub group : ExecutionGroup F
  pub dep_keys : HashMap ℕ ℕ

-- The messages that the scheduler sends to the worker manager.
pub data WorkerManagerMessage (F : Type 0) : Type 0 where
  worker_job : (worker : ℕ) (job : WorkerJob F) → WorkerManagerMessage F
  stop_worker_job : (worker job : ℕ) → WorkerManagerMessage F
  exit : WorkerManagerMessage F

pub record CurrentJob : Type 0 where
  pub client : ℕ
  pub group : ℕ
  pub start : ℕ

pub record ConnectedWorker : Type 0 where
  pub uuid : ℕ
  pub name : String
  pub current_job : Option CurrentJob

pub record SchedulerClientData (F : Type 0) : Type 0 where
  pub name : String
  pub dag : ExecutionDagData F
  pub callbacks : ExecutionDagWatchSet
  pub input_of : HashMap ℕ (HashSet ℕ)
  pub ready_groups : HashSet ℕ
  pub running_groups : HashSet ℕ
  pub missing_deps : HashMap ℕ (HashSet ℕ)
  pub file_handles : HashMap ℕ ℕ

-- The channels are the messages sent, oldest first, and whether the receiver is still there.
-- `now` is what the clock reads.
pub record Scheduler (F C : Type 0) : Type 0 where
  pub cache : C
  pub executor : List (ℕ × ExecutorMessage F)
  pub executor_open : Bool
  pub worker_manager : List (WorkerManagerMessage F)
  pub worker_manager_open : Bool
  pub ready_execs : List ReadyExec
  pub clients : HashMap ℕ (SchedulerClientData F)
  pub connected_workers : HashMap ℕ ConnectedWorker
  pub now : ℕ

-- `Option::expect`, and the index operator of a map.
abbrev pub or_panic {ℓ} : {A : Type ℓ} → Option A → Result Error A
or_panic none = err panic
or_panic (some a) = ok a

module _ {F : Type 0} where
  unfoldable pub new_client_data :
      String → ExecutionDagData F → ExecutionDagWatchSet → SchedulerClientData F
  new_client_data name dag callbacks = record {
    name = name;
    dag = dag;
    callbacks = callbacks;
    input_of = [];
    ready_groups = [];
    running_groups = [];
    missing_deps = [];
    file_handles = [];
  }

  unfoldable pub is_done : SchedulerClientData F → Bool
  is_done client =
      is_empty client.ready_groups && is_empty client.running_groups && is_empty client.missing_deps

module _ {F C : Type 0} where
  -- A message to a client, of which only a warning tells that it could not be sent.
  unfoldable pub notify : ℕ → ExecutorMessage F → Scheduler F C → Scheduler F C
  notify client mex s =
      if s.executor_open then record s { executor = s.executor ++ (client, mex) ∷ [] } else s

  -- A message to a client whose failure ends the handler.
  unfoldable pub send_executor :
      ℕ → ExecutorMessage F → Scheduler F C → Result Error (Scheduler F C)
  send_executor client mex s =
      if s.executor_open
      then ok (record s { executor = s.executor ++ (client, mex) ∷ [] })
      else err send_failed

  unfoldable pub send_worker_manager :
      WorkerManagerMessage F → Scheduler F C → Result Error (Scheduler F C)
  send_worker_manager mex s =
      if s.worker_manager_open
      then ok (record s { worker_manager = s.worker_manager ++ mex ∷ [] })
      else err send_failed

  unfoldable pub set_client : ℕ → SchedulerClientData F → Scheduler F C → Scheduler F C
  set_client client d s = record s { clients = HashMap.insert client d s.clients }

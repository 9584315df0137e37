-- ===== src/Scheduler/Clients.antt =====
-- task-maker-exec/src/scheduler.rs: what the handlers compute of the clients: the groups of a new DAG,
-- the numbers and jobs of a status, the executions that are left when a client is gone.
use task_maker_rust.Base.{
  ℕ, ◌+◌, ◌-◌, Option, none, some, List, [], ◌∷◌, if◌then◌else◌, Result, ok, ◌>>=◌, length,
  is_empty,
}
use task_maker_rust.Base.Tests.{nat_eq}
use task_maker_rust.Base.HashMap
use task_maker_rust.Base.HashMap.{HashMap}
use task_maker_rust.Base.HashSet
use task_maker_rust.Base.HashSet.{HashSet}
use task_maker_rust.Base.Int.{ℤ}
use task_maker_rust.Dag.Group.{ExecutionGroup, dependencies}
use task_maker_rust.Scheduler.Heap.{ReadyExec}
use task_maker_rust.Scheduler.State.{
  Error, SchedulerClientData, CurrentJob, WorkerCurrentJobStatus, ExecutorWorkerStatus,
  ConnectedWorker, or_panic,
}

-- `entry(key).or_default()` of a map of sets.
abbrev pub or_default : Option (HashSet ℕ) → HashSet ℕ
or_default none = []
or_default (some v) = v

-- `input_of[input]` gains the group, for each input.
unfoldable pub add_inputs : ℕ → List ℕ → HashMap ℕ (HashSet ℕ) → HashMap ℕ (HashSet ℕ)
add_inputs group [] input_of = input_of
add_inputs group (input ∷ inputs) input_of =
    add_inputs group inputs (
      HashMap.insert input (HashSet.insert group (or_default (HashMap.get input input_of)))
        input_of)

unfoldable pub add_missing : List ℕ → HashSet ℕ → HashSet ℕ
add_missing [] missing = missing
add_missing (input ∷ inputs) missing = add_missing inputs (HashSet.insert input missing)

module _ {F : Type 0} where
  -- One round of the loop of `handle_evaluate_dag`.
  unfoldable pub add_group :
      ℤ
      → ℕ
      → ExecutionGroup F
      → SchedulerClientData F × List ReadyExec
      → SchedulerClientData F × List ReadyExec
  add_group dag_priority client_uuid group (client, ready) =
      let missing =
        add_missing (dependencies group)
          (or_default (HashMap.get group.uuid client.missing_deps)) in
      let client' = record client {
        input_of = add_inputs group.uuid (dependencies group) client.input_of;
        missing_deps = HashMap.insert group.uuid missing client.missing_deps;
      } in
      if is_empty missing
      then (
        record client' {
          missing_deps = HashMap.remove group.uuid client'.missing_deps;
          ready_groups = HashSet.insert group.uuid client.ready_groups;
        },
        record {
          dag_priority = dag_priority;
          priority = group.priority;
          group = group.uuid;
          client = client_uuid;
        }
            ∷ ready,
      )
      else (client', ready)

  unfoldable pub add_groups :
      ℤ
      → ℕ
      → List (ExecutionGroup F)
      → SchedulerClientData F × List ReadyExec
      → SchedulerClientData F × List ReadyExec
  add_groups dag_priority client_uuid [] p = p
  add_groups dag_priority client_uuid (group ∷ groups) p =
      add_groups dag_priority client_uuid groups (add_group dag_priority client_uuid group p)

  -- The totals of `handle_status_request`.
  unfoldable pub total_ready : HashMap ℕ (SchedulerClientData F) → ℕ
  total_ready [] = 0
  total_ready ((_, client) ∷ clients) = length client.ready_groups + total_ready clients

  unfoldable pub total_waiting : HashMap ℕ (SchedulerClientData F) → ℕ
  total_waiting [] = 0
  total_waiting ((_, client) ∷ clients) = length client.missing_deps + total_waiting clients

  -- The job of a worker as `handle_status_request` shows it.
  unfoldable pub job_status :
      HashMap ℕ (SchedulerClientData F)
      → ℕ
      → Option CurrentJob
      → Result Error (Option WorkerCurrentJobStatus)
  job_status clients now none = ok none
  job_status clients now (some job) = elim (HashMap.get job.client clients) [
    | none ↦ ok none
    | some client ↦ do
      exec ← or_panic (HashMap.get job.group client.dag.execution_groups)
      ok (
          some (record {
            job = exec.description;
            client = record { uuid = job.client; name = client.name };
            duration = now - job.start;
          }))
  ]

  unfoldable pub worker_statuses :
      HashMap ℕ (SchedulerClientData F)
      → ℕ
      → List ConnectedWorker
      → Result Error (List ExecutorWorkerStatus)
  worker_statuses clients now [] = ok []
  worker_statuses clients now (worker ∷ workers) = do
    job ← job_status clients now worker.current_job
    rest ← worker_statuses clients now workers
    ok (record { uuid = worker.uuid; name = worker.name; current_job = job } ∷ rest)

  -- The executions of the queue whose client is still there.
  unfoldable pub keep_live : HashMap ℕ (SchedulerClientData F) → List ReadyExec → List ReadyExec
  keep_live clients [] = []
  keep_live clients (exec ∷ execs) =
      if HashMap.contains_key exec.client clients
      then exec ∷ keep_live clients execs
      else keep_live clients execs

-- ===== src/Scheduler/Handlers.antt =====
-- The handlers of the scheduler's messages, and the loop that receives them.
use task_maker_rust.Base.{
  ℕ, String, false, Option, none, some, List, [], ◌∷◌, if◌then◌else◌, Result, ok, err, ◌>>=◌,
  length,
}
use task_maker_rust.Base.Tests.{nat_eq, nat_beq}
use task_maker_rust.Base.HashMap
use task_maker_rust.Base.HashMap.{HashMap}
use task_maker_rust.Base.HashSet
use task_maker_rust.Base.HashSet.{HashSet}
use task_maker_rust.Dag.Execution.{ExecutionResult, high_priority}
use task_maker_rust.Dag.Data.{ExecutionDagData, ExecutionDagWatchSet}
use task_maker_rust.Scheduler.State.{
  Error, invalid_worker_result, SchedulerClientData, Scheduler, Cache, ClientInfo, CurrentJob,
  ConnectedWorker, evaluation_done, status, stop_worker_job, exit, notify, send_executor,
  send_worker_manager, set_client, or_panic, new_client_data, is_done,
}
use task_maker_rust.Scheduler.Files.{for_each}
use task_maker_rust.Scheduler.Jobs.{assign_jobs}
use task_maker_rust.Scheduler.Completion.{schedule_cached, file_success, exec_completed}
use task_maker_rust.Scheduler.Clients.{
  add_groups, total_ready, total_waiting, worker_statuses, keep_live,
}

module _ {F C : Type 0} where
  unfoldable pub check_completion : ℕ → Scheduler F C → Result Error (Scheduler F C)
  check_completion client_uuid s = elim (HashMap.get client_uuid s.clients) [
    | none ↦ ok s
    | some client ↦ if is_done client then send_executor client_uuid evaluation_done s else ok s
  ]

  -- One round of the last loop of `handle_client_disconnected`.
  unfoldable pub stop_job : ℕ → ℕ × ConnectedWorker → Scheduler F C → Result Error (Scheduler F C)
  stop_job client_uuid (uuid, worker) s = elim worker.current_job [
    | none ↦ ok s
    | some job ↦
        if nat_beq job.client client_uuid
        then send_worker_manager (stop_worker_job uuid job.group) s
        else ok s
  ]

  unfoldable pub handle_client_disconnected : ℕ → Scheduler F C → Result Error (Scheduler F C)
  handle_client_disconnected client_uuid s = do
    s1 ← elim (HashMap.get client_uuid s.clients) [
      | none ↦ ok s
      | some client ↦ if is_done client then ok s else send_executor client_uuid evaluation_done s
    ]
    let clients' = HashMap.remove client_uuid s1.clients
    for_each (stop_job client_uuid) s1.connected_workers
        (record s1 { clients = clients'; ready_execs = keep_live clients' s1.ready_execs })

  unfoldable pub handle_worker_connected : ℕ → String → Scheduler F C → Result Error (Scheduler F C)
  handle_worker_connected uuid name s =
      let worker : ConnectedWorker = record { uuid = uuid; name = name; current_job = none } in
      assign_jobs (record s { connected_workers = HashMap.insert uuid worker s.connected_workers })

  -- The job of a worker that left is ready again.
  unfoldable pub reschedule : Option CurrentJob → Scheduler F C → Result Error (Scheduler F C)
  reschedule none s = ok s
  reschedule (some job) s = elim (HashMap.get job.client s.clients) [
    | none ↦ ok s
    | some client ↦ do
      group ← or_panic (HashMap.get job.group client.dag.execution_groups)
      ok (
          set_client job.client
            (record client {
              ready_groups = HashSet.insert job.group client.ready_groups;
              running_groups = HashSet.remove job.group client.running_groups;
            })
            (record s {
              ready_execs =
                  record {
                    dag_priority = high_priority;
                    priority = group.priority;
                    group = job.group;
                    client = job.client;
                  }
                  ∷ s.ready_execs;
            }))
  ]

  unfoldable pub handle_worker_disconnected : ℕ → Scheduler F C → Result Error (Scheduler F C)
  handle_worker_disconnected uuid s = elim (HashMap.get uuid s.connected_workers) [
    | none ↦ ok s
    | some worker ↦
        reschedule worker.current_job
          (record s { connected_workers = HashMap.remove uuid s.connected_workers })
  ]

  unfoldable pub handle_status_request : ℕ → Scheduler F C → Result Error (Scheduler F C)
  handle_status_request client_uuid s = do
    workers ← worker_statuses s.clients s.now (HashMap.values s.connected_workers)
    ok (
        notify client_uuid
          (status (record {
            connected_workers = workers;
            ready_execs = total_ready s.clients;
            waiting_execs = total_waiting s.clients;
          }))
          s)

-- The messages to the scheduler, but for `Exit`.
pub data SchedulerMessage (F : Type 0) : Type 0 where
  evaluate_dag : ClientInfo → ExecutionDagData F → ExecutionDagWatchSet → SchedulerMessage F
  file_is_ready : (client file handle : ℕ) → SchedulerMessage F
  worker_result : (worker : ℕ) → List (ExecutionResult F) → HashMap ℕ ℕ → SchedulerMessage F
  worker_connected : (worker : ℕ) (name : String) → SchedulerMessage F
  worker_disconnected client_disconnected status_request : ℕ → SchedulerMessage F

module _ {F C : Type 0} (cache : Cache F C) where
  unfoldable pub handle_evaluate_dag :
      ClientInfo
      → ExecutionDagData F
      → ExecutionDagWatchSet
      → Scheduler F C
      → Result Error (Scheduler F C)
  handle_evaluate_dag client dag callbacks s = do
    let (client_data, ready) =
        add_groups dag.config.priority client.uuid (HashMap.values dag.execution_groups)
          (new_client_data client.name dag callbacks, s.ready_execs)
    s1 ←
        check_completion client.uuid
          (set_client client.uuid client_data (record s { ready_execs = ready }))
    s2 ← schedule_cached cache s1
    assign_jobs s2

  unfoldable pub handle_file_ready : ℕ → ℕ → ℕ → Scheduler F C → Result Error (Scheduler F C)
  handle_file_ready client_uuid file handle s = elim (HashMap.get client_uuid s.clients) [
    | none ↦ ok s
    | some client ↦ do
      s1 ← file_success cache client_uuid file (
          set_client client_uuid
            (record client { file_handles = HashMap.insert file handle client.file_handles }) s)
      check_completion client_uuid s1
  ]

  -- The end of a job whose client is still there.
  unfoldable pub finish_job :
      CurrentJob
      → SchedulerClientData F
      → List (ExecutionResult F)
      → HashMap ℕ ℕ
      → Scheduler F C
      → Result Error (Scheduler F C)
  finish_job job client result outs s = do
    group ← or_panic (HashMap.get job.group client.dag.execution_groups)
    if nat_beq (length group.executions) (length result)
        then (do
          s1 ← exec_completed cache job.client group result outs false (
              set_client job.client
                (record client { running_groups = HashSet.remove job.group client.running_groups })
                s)
          s2 ← assign_jobs s1
          check_completion job.client s2)
        else err invalid_worker_result

  unfoldable pub handle_worker_result :
      ℕ → List (ExecutionResult F) → HashMap ℕ ℕ → Scheduler F C → Result Error (Scheduler F C)
  handle_worker_result uuid result outs s = elim (HashMap.get uuid s.connected_workers) [
    | none ↦ ok s
    | some worker ↦
        let s1 = record s { connected_workers = HashMap.remove uuid s.connected_workers } in
        elim worker.current_job [
          | none ↦ ok s1
          | some job ↦ elim (HashMap.get job.client s1.clients) [
            | none ↦ assign_jobs s1 >>= check_completion job.client
            | some client ↦ finish_job job client result outs s1
          ]
        ]
  ]

  unfoldable pub handle : SchedulerMessage F → Scheduler F C → Result Error (Scheduler F C)
  handle (evaluate_dag client dag callbacks) = handle_evaluate_dag client dag callbacks
  handle (file_is_ready client file key) = handle_file_ready client file key
  handle (worker_result worker result outs) = handle_worker_result worker result outs
  handle (worker_connected worker name) = handle_worker_connected worker name
  handle (worker_disconnected worker) = handle_worker_disconnected worker
  handle (client_disconnected client) = handle_client_disconnected client
  handle (status_request client) = handle_status_request client

  -- `run`: every message with the time at which it is handled, up to the end of the channel or
  -- the message `Exit`.
  unfoldable pub run : List (ℕ × SchedulerMessage F) → Scheduler F C → Result Error (Scheduler F C)
  run [] s = send_worker_manager exit s
  run ((now, message) ∷ messages) s = do
    s' ← handle message (record s { now = now })
    run messages s'

-- ===== src/Scheduler/Termination/Messages.antt =====
-- The handlers of scheduler.rs, and its loop.
use task_maker_rust.Base.{
  ℕ, ◌≤◌, ◌≡◌, ◌≢◌, Bool, false, Option, none, some, List, [], ◌∷◌, length, arith, Result, ok, err,
}
use task_maker_rust.Base.Tests.{nat_eq, nat_beq}
use task_maker_rust.Base.HashMap
use task_maker_rust.Base.HashMap.{HashMap}
use task_maker_rust.Dag.Execution.{ExecutionResult}
use task_maker_rust.Dag.Group.{ExecutionGroup}
use task_maker_rust.Scheduler.State.{
  Scheduler, SchedulerClientData, ConnectedWorker, CurrentJob, WorkerManagerMessage,
  ExecutorMessage, Cache, Error, out_of_fuel, send_executor, send_worker_manager, is_done,
}
use task_maker_rust.Scheduler.Files.{for_each}
use task_maker_rust.Scheduler.Jobs.{assign_jobs}
use task_maker_rust.Scheduler.Completion.{pending, file_success, exec_completed}
use task_maker_rust.Scheduler.Clients.{job_status, worker_statuses}
use task_maker_rust.Scheduler.Handlers.{
  check_completion, stop_job, handle_client_disconnected, handle_worker_connected, reschedule,
  handle_worker_disconnected, handle_status_request, handle_evaluate_dag, handle_file_ready,
  finish_job, handle_worker_result, SchedulerMessage, evaluate_dag, file_is_ready, worker_result,
  worker_connected, worker_disconnected, client_disconnected, status_request, handle, run,
}
use task_maker_rust.Scheduler.Outcome.{
  Ends, Ends-ok, Ends-err, Ends-if, Ends-option, Ends-weaken, Ends-bind, Ends-for_each,
  Ends-or_panic, Ends-ne, Ends-value,
}
use task_maker_rust.Scheduler.Termination.Loops.{assign_jobs-pending}
use task_maker_rust.Scheduler.Termination.Cached.{
  schedule_cached-pending, file_success-pending, exec_completed-pending,
}

abbrev Returns : {A : Type 0} → Result Error A → Type 0
Returns r = Ends out_of_fuel (λ _. Unit {0}) r

Returns-for_each :
    {A S : Type 0} {body : A → S → Result Error S} (xs : List A) (s : S)
    → ((x : A) (t : S) → Returns (body x t))
    → Returns (for_each body xs s)
Returns-for_each xs s h = Ends-for_each (λ _. Unit {0}) xs (λ x t _. h x t) tt

module _ {F : Type 0} where
  job_status-Returns :
      (clients : HashMap ℕ (SchedulerClientData F)) (now : ℕ) (job : Option CurrentJob)
      → Returns (job_status clients now job)
  unfolding job_status
  job_status-Returns clients now none = Ends-ok _ tt
  job_status-Returns clients now (some job) =
      Ends-option (HashMap.get job.client clients) (λ _. Ends-ok _ tt)
        λ client _. Ends-bind (Ends-or_panic _ (λ _ e. cc)) λ exec _ _. Ends-ok _ tt

  worker_statuses-Returns :
      (clients : HashMap ℕ (SchedulerClientData F)) (now : ℕ) (workers : List ConnectedWorker)
      → Returns (worker_statuses clients now workers)
  unfolding worker_statuses
  worker_statuses-Returns clients now [] = Ends-ok _ tt
  worker_statuses-Returns clients now (w ∷ ws) =
      Ends-bind (job_status-Returns clients now w.current_job)
        λ job _ _. Ends-bind (worker_statuses-Returns clients now ws) λ rest _ _. Ends-ok _ tt

module _ {F C : Type 0} where
  send_executor-Returns :
      (c : ℕ) (m : ExecutorMessage F) (s : Scheduler F C) → Returns (send_executor c m s)
  unfolding send_executor
  send_executor-Returns c m s =
      Ends-if s.executor_open (λ _. Ends-ok _ tt) (λ _. Ends-err _ (λ e. cc))

  send_worker_manager-Returns :
      (m : WorkerManagerMessage F) (s : Scheduler F C) → Returns (send_worker_manager m s)
  unfolding send_worker_manager
  send_worker_manager-Returns m s =
      Ends-if s.worker_manager_open (λ _. Ends-ok _ tt) (λ _. Ends-err _ (λ e. cc))

  check_completion-Returns : (c : ℕ) (s : Scheduler F C) → Returns (check_completion c s)
  unfolding check_completion
  check_completion-Returns c s =
      Ends-option (HashMap.get c s.clients) (λ _. Ends-ok _ tt)
        λ client _. Ends-if (is_done client) (λ _. send_executor-Returns c _ s) (λ _. Ends-ok _ tt)

  assign_jobs-Returns : (s : Scheduler F C) → Returns (assign_jobs s)
  assign_jobs-Returns s = Ends-weaken (λ t _. tt) (assign_jobs-pending (pending s) s (omega arith))

  stop_job-Returns :
      (c : ℕ) (p : ℕ × ConnectedWorker) (s : Scheduler F C) → Returns (stop_job c p s)
  unfolding stop_job
  stop_job-Returns c (u, w) s =
      Ends-option w.current_job (λ _. Ends-ok _ tt)
        λ job _.
          Ends-if (nat_beq job.client c) (λ _. send_worker_manager-Returns _ s) (λ _. Ends-ok _ tt)

  handle_client_disconnected-Returns :
      (c : ℕ) (s : Scheduler F C) → Returns (handle_client_disconnected c s)
  unfolding handle_client_disconnected
  handle_client_disconnected-Returns c s =
      Ends-bind {P = λ _. Unit {0}}
        (Ends-option (HashMap.get c s.clients) (λ _. Ends-ok _ tt)
          λ client _.
            Ends-if (is_done client) (λ _. Ends-ok _ tt) (λ _. send_executor-Returns c _ s))
        λ s1 _ _. Returns-for_each s1.connected_workers _ (λ p t. stop_job-Returns c p t)

  reschedule-Returns : (job : Option CurrentJob) (s : Scheduler F C) → Returns (reschedule job s)
  unfolding reschedule
  reschedule-Returns none s = Ends-ok _ tt
  reschedule-Returns (some job) s =
      Ends-option (HashMap.get job.client s.clients) (λ _. Ends-ok _ tt)
        λ client _. Ends-bind (Ends-or_panic _ (λ _ e. cc)) λ group _ _. Ends-ok _ tt

  handle_worker_disconnected-Returns :
      (u : ℕ) (s : Scheduler F C) → Returns (handle_worker_disconnected u s)
  unfolding handle_worker_disconnected
  handle_worker_disconnected-Returns u s =
      Ends-option (HashMap.get u s.connected_workers) (λ _. Ends-ok _ tt)
        λ w _. reschedule-Returns w.current_job _

module _ {F C : Type 0} (cache : Cache F C) where
  file_success-Returns : (c file : ℕ) (s : Scheduler F C) → Returns (file_success cache c file s)
  file_success-Returns c file s =
      Ends-weaken (λ t _. tt) (file_success-pending cache (pending s) c file s (omega arith))

  exec_completed-Returns :
      (c : ℕ) (g : ExecutionGroup F) (result : List (ExecutionResult F)) (outs : HashMap ℕ ℕ)
      (s : Scheduler F C)
      → Returns (exec_completed cache c g result outs false s)
  exec_completed-Returns c g result outs s =
      Ends-weaken (λ t _. tt)
        (exec_completed-pending cache (pending s) c g result outs false s (omega arith))

  finish_job-Returns :
      (job : CurrentJob) (client : SchedulerClientData F) (result : List (ExecutionResult F))
      (outs : HashMap ℕ ℕ) (s : Scheduler F C)
      → Returns (finish_job cache job client result outs s)
  unfolding finish_job
  finish_job-Returns job client result outs s = Ends-bind (Ends-or_panic _ (λ _ e. cc)) λ group _ _.
      Ends-if (nat_beq (length group.executions) (length result))
        (λ _. Ends-bind (exec_completed-Returns job.client group result outs _) λ s1 _ _.
          Ends-bind (assign_jobs-Returns s1) λ s2 _ _. check_completion-Returns job.client s2)
        (λ _. Ends-err _ (λ e. cc))

  handle-Returns : (m : SchedulerMessage F) (s : Scheduler F C) → Returns (handle cache m s)
  unfolding handle handle_worker_connected handle_status_request handle_evaluate_dag
      handle_file_ready handle_worker_result
  handle-Returns (evaluate_dag client dag callbacks) s =
      Ends-bind (check_completion-Returns client.uuid _) λ s1 _ _.
        Ends-bind
          (Ends-weaken {Q = λ _. Unit {0}} (λ t _. tt)
            (schedule_cached-pending cache (pending s1) s1 (omega arith)))
          λ s2 _ _. assign_jobs-Returns s2
  handle-Returns (file_is_ready c file key) s =
      Ends-option (HashMap.get c s.clients) (λ _. Ends-ok _ tt)
        λ client _.
          Ends-bind (file_success-Returns c file _) λ s1 _ _. check_completion-Returns c s1
  handle-Returns (worker_result u result outs) s =
      Ends-option (HashMap.get u s.connected_workers) (λ _. Ends-ok _ tt)
        λ w _.
          Ends-option w.current_job (λ _. Ends-ok _ tt)
            λ job _.
              Ends-option (HashMap.get job.client s.clients)
                (λ _.
                  Ends-bind (assign_jobs-Returns _) λ t _ _. check_completion-Returns job.client t)
                (λ client _. finish_job-Returns job client result outs _)
  handle-Returns (worker_connected u name) s = assign_jobs-Returns _
  handle-Returns (worker_disconnected u) s = handle_worker_disconnected-Returns u s
  handle-Returns (client_disconnected c) s = handle_client_disconnected-Returns c s
  handle-Returns (status_request c) s =
      Ends-bind (worker_statuses-Returns s.clients s.now _) λ workers _ _. Ends-ok _ tt

  run-Returns : (ms : List (ℕ × SchedulerMessage F)) (s : Scheduler F C) → Returns (run cache ms s)
  unfolding run
  run-Returns [] s = send_worker_manager-Returns _ s
  run-Returns ((now, m) ∷ ms) s = Ends-bind (handle-Returns m _) λ t _ _. run-Returns ms t

  -- The mutual recursion of the scheduler ends on every sequence of messages, from every state and
  -- with every cache: the fuel of `schedule_cached` and `file_failed`, which is computed from the
  -- state, never runs out.
  pub run-ne-out_of_fuel :
      (messages : List (ℕ × SchedulerMessage F)) (s : Scheduler F C)
      → run cache messages s ≢ err out_of_fuel
  run-ne-out_of_fuel messages s = Ends-ne (run-Returns messages s)

  -- A completed execution, with all that follows from it by the cache, is never cut off by the
  -- fuel, and where it succeeds it does not add to the number of groups that wait for files or for
  -- a worker.
  pub pending-exec_completed :
      (client : ℕ) (group : ExecutionGroup F) (result : List (ExecutionResult F))
      (outputs : HashMap ℕ ℕ) (from_cache : Bool) (s : Scheduler F C)
      → (exec_completed cache client group result outputs from_cache s ≢ err out_of_fuel)
        × ((t : Scheduler F C)
            → exec_completed cache client group result outputs from_cache s ≡ ok t
            → pending t ≤ pending s)
  pending-exec_completed client group result outputs from_cache s =
      let ends =
        exec_completed-pending cache (pending s) client group result outputs from_cache s
          (omega arith) in
      (Ends-ne ends, λ t e. Ends-value ends e)

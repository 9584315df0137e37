-- ===== src/Scheduler/Conserving/Handling.antt =====
-- The handlers of scheduler.rs and the free workers.
use task_maker_rust.Base.{
  ℕ, ◌≡◌, refl, ◌≢◌, Bool, true, false, List, [], ◌∷◌, ◌⊎◌, inl, inr, Result, ok, ◌>>=◌,
  if◌then◌else◌, length,
}
use task_maker_rust.Base.Tests.{nat_eq, nat_beq}
use task_maker_rust.Base.HashMap
use task_maker_rust.Base.HashMap.{HashMap}
use task_maker_rust.Dag.Execution.{ExecutionResult}
use task_maker_rust.Scheduler.State.{
  Scheduler, ConnectedWorker, CurrentJob, Cache, Error, SchedulerClientData, ExecutorMessage,
  WorkerManagerMessage, set_client, notify, send_executor, send_worker_manager, or_panic, is_done,
}
use task_maker_rust.Scheduler.Files.{for_each, mark_file, send_file}
use task_maker_rust.Scheduler.Jobs.{assign_jobs}
use task_maker_rust.Scheduler.Frame.{
  send_file-ready_execs, send_file-connected_workers, notify-ready_execs, notify-connected_workers,
}
use task_maker_rust.Scheduler.Completion.{
  schedule_cached, file_success_with, file_success, exec_completed,
}
use task_maker_rust.Scheduler.Clients.{keep_live}
use task_maker_rust.Scheduler.Handlers.{
  check_completion, stop_job, handle_client_disconnected, handle_worker_connected,
  handle_status_request, handle_evaluate_dag, handle_file_ready, finish_job, handle_worker_result,
  SchedulerMessage, evaluate_dag, file_is_ready, worker_result, worker_connected,
  worker_disconnected, client_disconnected, status_request, handle,
}
use task_maker_rust.Scheduler.Conserving.{
  Gives, Gives-ok, Gives-err, Gives-bind, Gives-then, Gives-option, Gives-if, IsBusy, IsBusy-same,
  assign_jobs-IsBusy,
}

Gives-for_each :
    {A S : Type 0} (P : S → Type 0) (body : A → S → Result Error S) (xs : List A) (s : S)
    → ((x : A) (t : S) → P t → Gives P (body x t))
    → P s
    → Gives P (for_each body xs s)
unfolding for_each
Gives-for_each P body [] s h p = Gives-ok P s p
Gives-for_each P body (x ∷ xs) s h p =
    Gives-bind P P (body x s) _ (h x s p) (λ t q. Gives-for_each P body xs t h q)

module _ {F C : Type 0} where
  send_executor-IsBusy :
      (c : ℕ) (m : ExecutorMessage F) (s : Scheduler F C)
      → IsBusy s
      → Gives IsBusy (send_executor c m s)
  unfolding send_executor
  send_executor-IsBusy c m s h = Gives-if _ s.executor_open (Gives-ok _ _ h) (Gives-err _ _)

  send_worker_manager-IsBusy :
      (m : WorkerManagerMessage F) (s : Scheduler F C)
      → IsBusy s
      → Gives IsBusy (send_worker_manager m s)
  unfolding send_worker_manager
  send_worker_manager-IsBusy m s h =
      Gives-if _ s.worker_manager_open (Gives-ok _ _ h) (Gives-err _ _)

  check_completion-IsBusy :
      (c : ℕ) (s : Scheduler F C) → IsBusy s → Gives IsBusy (check_completion c s)
  unfolding check_completion
  check_completion-IsBusy c s h =
      Gives-option _ (HashMap.get c s.clients) (λ _. Gives-ok _ s h)
        λ client _. Gives-if _ (is_done client) (send_executor-IsBusy c _ s h) (Gives-ok _ s h)

  notify-IsBusy :
      (c : ℕ) (m : ExecutorMessage F) (s : Scheduler F C) → IsBusy s → IsBusy (notify c m s)
  notify-IsBusy c m s h =
      IsBusy-same s (notify c m s) (notify-ready_execs c m s) (notify-connected_workers c m s) h

  stop_job-IsBusy :
      (c : ℕ) (p : ℕ × ConnectedWorker) (s : Scheduler F C)
      → IsBusy s
      → Gives IsBusy (stop_job c p s)
  unfolding stop_job
  stop_job-IsBusy c (u, w) s h =
      Gives-option _ w.current_job (λ _. Gives-ok _ s h)
        λ job _.
          Gives-if _ (nat_beq job.client c) (send_worker_manager-IsBusy _ s h) (Gives-ok _ s h)

  IsBusy-keep_live :
      (clients : HashMap ℕ (SchedulerClientData F)) (s : Scheduler F C)
      → IsBusy s
      → IsBusy (record s { clients = clients; ready_execs = keep_live clients s.ready_execs })
  unfolding keep_live
  IsBusy-keep_live clients s (inl empty) = inl (rw empty)
  IsBusy-keep_live clients s (inr busy) = inr busy

  handle_client_disconnected-IsBusy :
      (c : ℕ) (s : Scheduler F C) → IsBusy s → Gives IsBusy (handle_client_disconnected c s)
  unfolding handle_client_disconnected
  handle_client_disconnected-IsBusy c s h =
      Gives-bind IsBusy _ _ _
        (Gives-option _ (HashMap.get c s.clients) (λ _. Gives-ok _ s h)
          λ client _. Gives-if _ (is_done client) (Gives-ok _ s h) (send_executor-IsBusy c _ s h))
        λ s1 h1.
          Gives-for_each IsBusy _ s1.connected_workers _ (λ p t k. stop_job-IsBusy c p t k)
            (IsBusy-keep_live (HashMap.remove c s1.clients) s1 h1)

  -- A worker that leaves no job behind.
  IsBusy-remove :
      (u : ℕ) (s : Scheduler F C)
      → IsBusy s
      → IsBusy (record s { connected_workers = HashMap.remove u s.connected_workers })
  IsBusy-remove u s (inl empty) = inl empty
  IsBusy-remove u s (inr busy) =
      inr (λ v w at. busy v w (HashMap.get-remove-some u v w s.connected_workers at))

  -- `file_success` with no group that reads the file leaves the queue and the workers.
  mark_file-IsBusy :
      (c file : ℕ) (s : Scheduler F C)
      → IsBusy s
      → Gives (λ p. (p.0 ≡ true) ⊎ IsBusy p.1) (mark_file c file s)
  unfolding mark_file
  mark_file-IsBusy c file s h =
      Gives-option _ (HashMap.get c (send_file c file true s).clients)
        (λ _. Gives-ok _ _ (inr sent))
        λ client _.
          Gives-option _ (HashMap.get file client.input_of) (λ _. Gives-ok _ _ (inr sent))
            λ groups _. Gives-then _ _ _ λ t _. Gives-ok _ _ (inl refl)
    where
      sent : IsBusy (send_file c file true s)
      sent =
          IsBusy-same s (send_file c file true s) (send_file-ready_execs c file true s)
            (send_file-connected_workers c file true s) h

module _ {F C : Type 0} (cache : Cache F C) where
  file_success-IsBusy :
      (c file : ℕ) (s : Scheduler F C) → IsBusy s → Gives IsBusy (file_success cache c file s)
  unfolding file_success file_success_with
  file_success-IsBusy c file s h =
      Gives-bind _ _ _ _ (mark_file-IsBusy c file s h) λ p k. split p.0 p.1 k
    where
      split :
          (b : Bool) (t : Scheduler F C)
          → (b ≡ true) ⊎ IsBusy t
          → Gives IsBusy (if b then schedule_cached cache t >>= assign_jobs else ok t)
      split true t k = Gives-then _ (schedule_cached cache t) _ λ u _. assign_jobs-IsBusy u
      split false t (inl no_way) = cc
      split false t (inr busy) = Gives-ok _ t busy

  finish_job-IsBusy :
      (job : CurrentJob) (client : SchedulerClientData F) (result : List (ExecutionResult F))
      (outs : HashMap ℕ ℕ) (s : Scheduler F C)
      → Gives IsBusy (finish_job cache job client result outs s)
  unfolding finish_job
  finish_job-IsBusy job client result outs s =
      Gives-then _ (or_panic (HashMap.get job.group client.dag.execution_groups)) _ λ group _.
        Gives-if _ (nat_beq (length group.executions) (length result))
          (Gives-then _ (exec_completed cache job.client group result outs false _) _ λ s1 _.
            Gives-bind _ _ (assign_jobs s1) _ (assign_jobs-IsBusy s1)
              λ s2 k. check_completion-IsBusy job.client s2 k)
          (Gives-err _ _)

  handle_worker_result-IsBusy :
      (u : ℕ) (result : List (ExecutionResult F)) (outs : HashMap ℕ ℕ) (s : Scheduler F C)
      → IsBusy s
      → Gives IsBusy (handle_worker_result cache u result outs s)
  unfolding handle_worker_result
  handle_worker_result-IsBusy u result outs s h =
      Gives-option _ (HashMap.get u s.connected_workers) (λ _. Gives-ok _ s h)
        λ w _.
          Gives-option _ w.current_job (λ _. Gives-ok _ _ (IsBusy-remove u s h))
            λ job _.
              Gives-option _ (HashMap.get job.client s.clients)
                (λ _.
                  Gives-bind _ _ _ _ (assign_jobs-IsBusy _)
                    λ t k. check_completion-IsBusy job.client t k)
                (λ client _. finish_job-IsBusy job client result outs _)

  -- Every handler but that of a worker that disconnects keeps the scheduler from leaving a worker
  -- free while an execution is ready: if before the message the queue is empty or each connected
  -- worker has a job, and the handler succeeds, then so it is afterwards.
  pub handle-IsBusy :
      (m : SchedulerMessage F) (s t : Scheduler F C)
      → ((u : ℕ) → m ≢ worker_disconnected u)
      → IsBusy s
      → handle cache m s ≡ ok t
      → IsBusy t
  unfolding handle handle_evaluate_dag handle_file_ready handle_worker_connected
      handle_status_request
  handle-IsBusy (evaluate_dag client dag watch) s t other h =
      Gives-then IsBusy (check_completion client.uuid _) _
        (λ s1 _. Gives-then IsBusy (schedule_cached cache s1) _ (λ s2 _. assign_jobs-IsBusy s2)) t
  handle-IsBusy (file_is_ready c file key) s t other h =
      Gives-option IsBusy (HashMap.get c s.clients) (λ _. Gives-ok _ s h)
        (λ client _.
          Gives-bind IsBusy IsBusy _ _ (file_success-IsBusy c file _ (set_client-IsBusy c _ s h))
            (λ s1 k. check_completion-IsBusy c s1 k))
        t
    where
      set_client-IsBusy :
          (c : ℕ) (client : SchedulerClientData F) (s : Scheduler F C)
          → IsBusy s
          → IsBusy (set_client c client s)
      set_client-IsBusy c client s k = unfold set_client in k
  handle-IsBusy (worker_result u result outs) s t other h =
      handle_worker_result-IsBusy u result outs s h t
  handle-IsBusy (worker_connected u name) s t other h = assign_jobs-IsBusy _ t
  handle-IsBusy (worker_disconnected u) s t other h = absurd (other u refl)
  handle-IsBusy (client_disconnected c) s t other h = handle_client_disconnected-IsBusy c s h t
  handle-IsBusy (status_request c) s t other h =
      Gives-then IsBusy _ _ (λ workers _. Gives-ok _ _ (notify-IsBusy c _ s h)) t

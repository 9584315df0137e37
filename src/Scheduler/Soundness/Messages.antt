-- ===== src/Scheduler/Soundness/Messages.antt =====
-- The handlers of scheduler.rs that call the cache, and the whole loop `run`.
use task_maker_rust.Base.{
  ℕ, ◌≡◌, refl, String, false, none, some, List, [], ◌∷◌, All, length, ok, arith,
}
use task_maker_rust.Base.Tests.{nat_eq, nat_beq, nat_beq_iff}
use task_maker_rust.Base.HashMap
use task_maker_rust.Base.HashMap.{HashMap, values}
use task_maker_rust.Base.HashSet
use task_maker_rust.Dag.Execution.{ExecutionResult}
use task_maker_rust.Dag.Group.{ExecutionGroup, outputs}
use task_maker_rust.Dag.Data.{ExecutionDagData, ExecutionDagWatchSet}
use task_maker_rust.Scheduler.State.{
  Scheduler, SchedulerClientData, ConnectedWorker, CurrentJob, ClientInfo, Cache, panic, set_client,
}
use task_maker_rust.Scheduler.Handlers.{
  handle_worker_connected, handle_status_request, handle_evaluate_dag, handle_file_ready,
  finish_job, handle_worker_result, SchedulerMessage, evaluate_dag, file_is_ready, worker_result,
  worker_connected, worker_disconnected, client_disconnected, status_request, handle, run,
}
use task_maker_rust.Scheduler.Outcome.{
  Ends, Ends-ok, Ends-err, Ends-if, Ends-option, Ends-weaken, Ends-bind, Ends-found,
}
use task_maker_rust.Scheduler.Soundness.Invariant.{
  CacheInvariant, HasHandle, Executable, HasSoundJob, IsSound,
}
use task_maker_rust.Scheduler.Soundness.Update.{set_client-Keeps, notify-Keeps}
use task_maker_rust.Scheduler.Soundness.Running.{
  Sound-worker, Sound-remove_worker, send_worker_manager-Keeps, assign_jobs-Keeps,
}
use task_maker_rust.Scheduler.Soundness.Completing.{CacheLaws}
use task_maker_rust.Scheduler.Soundness.Scheduling.{
  schedule_cached-Keeps, file_success-Keeps, exec_completed-Keeps,
}
use task_maker_rust.Scheduler.Soundness.Evaluating.{add_groups-IsPartial}
use task_maker_rust.Scheduler.Soundness.Handling.{
  worker_statuses-found, moved-IsClientSound, check_completion-Keeps,
  handle_client_disconnected-IsSound, handle_worker_disconnected-IsSound,
}
use task_maker_rust.Scheduler.Soundness.Joining.{
  IsNew, IsKeyed, Sound-join, new_client-IsPartial, handle_IsClientSound, get-set_client_self,
}

module _ {F C : Type 0} (cache : Cache F C) ⦃inv : CacheInvariant C⦄ (laws : CacheLaws cache) where
  handle_evaluate_dag-IsSound :
      (client : ClientInfo) (dag : ExecutionDagData F) (watch : ExecutionDagWatchSet)
      (s : Scheduler F C)
      → IsSound s
      → IsNew client.uuid s.ready_execs s.connected_workers
      → IsKeyed dag
      → Ends panic IsSound (handle_evaluate_dag cache client dag watch s)
  unfolding handle_evaluate_dag set_client
  handle_evaluate_dag-IsSound client dag watch s h fresh keyed =
      let part =
        add_groups-IsPartial dag client.uuid s.clients dag.config.priority
          (values dag.execution_groups) _ keyed
          (new_client-IsPartial client.name dag watch client.uuid s.clients s.ready_execs
            fresh.not_ready h.ready_sound) in
      Ends-bind
        (check_completion-Keeps client.uuid _
          (Sound-join dag client.uuid s.clients s.ready_execs _ s.connected_workers _ fresh h part))
        λ s1 _ k1.
          Ends-bind (schedule_cached-Keeps cache laws s1 k1.sound)
            λ s2 _ k2. Ends-weaken (λ t n. n.sound) (assign_jobs-Keeps s2 k2.sound)

  handle_file_ready-IsSound :
      (c file handle : ℕ) (s : Scheduler F C)
      → IsSound s
      → Ends panic IsSound (handle_file_ready cache c file handle s)
  unfolding handle_file_ready
  handle_file_ready-IsSound c file handle s h =
      Ends-option (HashMap.get c s.clients) (λ _. Ends-ok _ h)
        λ client here.
          let learned = record client {
            file_handles = HashMap.insert file handle client.file_handles;
          } in
          let kept =
            set_client-Keeps c client learned s here
              (record {
                same_dag = refl;
                handles = λ f k. HashMap.contains_key-insert file f handle client.file_handles k;
              })
              (handle_IsClientSound client file handle (h.clients_sound c client here)) h in
          let known : HasHandle (HashMap.insert file handle client.file_handles) file =
            rw (HashMap.get-insert_self file handle client.file_handles) refl in
          Ends-bind
            (file_success-Keeps cache laws c file _ kept.sound
              (learned, get-set_client_self c learned s, (known, tt)))
            λ s1 _ k1. Ends-weaken (λ t n. n.sound) (check_completion-Keeps c s1 k1.sound)

  -- The result of a worker has the outputs of the group that it ran.
  abbrev pub HasOutputs : HashMap ℕ ℕ → CurrentJob → SchedulerClientData F → Type 0
  HasOutputs outs job client =
      (group : ExecutionGroup F)
      → HashMap.get job.group client.dag.execution_groups ≡ some group
      → All (HasHandle outs) (outputs group)

  finish_job-IsSound :
      (job : CurrentJob) (client : SchedulerClientData F) (result : List (ExecutionResult F))
      (outs : HashMap ℕ ℕ) (s : Scheduler F C)
      → IsSound s
      → HashMap.get job.client s.clients ≡ some client
      → Executable client job.group
      → HasOutputs outs job client
      → Ends panic IsSound (finish_job cache job client result outs s)
  unfolding finish_job
  finish_job-IsSound job client result outs s h here x complete =
      let freed = record client {
        running_groups = HashSet.remove job.group client.running_groups;
      } in
      let kept =
        set_client-Keeps job.client client freed s here
          (record { same_dag = refl; handles = λ f k. k })
          (moved-IsClientSound client _ _ (h.clients_sound job.client client here)) h in
      Ends-found _ x.group x.known (
        Ends-if (nat_beq (length (x.group).executions) (length result))
          (λ same.
            Ends-bind
              (exec_completed-Keeps cache laws job.client x.group result outs false _ kept.sound
                (complete x.group x.known)
                (λ _. (
                  (freed, get-set_client_self job.client freed s, x.available),
                  ground (arith, nat_beq_iff (length (x.group).executions) (length result)),
                )))
              λ s1 _ k1. Ends-bind (assign_jobs-Keeps s1 k1.sound) λ s2 _ k2.
                Ends-weaken (λ t n. n.sound) (check_completion-Keeps job.client s2 k2.sound))
          (λ _. Ends-err _ (λ e. cc)))

  handle_worker_result-IsSound :
      (u : ℕ) (result : List (ExecutionResult F)) (outs : HashMap ℕ ℕ) (s : Scheduler F C)
      → IsSound s
      → ((w : ConnectedWorker) (job : CurrentJob) (client : SchedulerClientData F)
          → HashMap.get u s.connected_workers ≡ some w
          → w.current_job ≡ some job
          → HashMap.get job.client s.clients ≡ some client
          → HasOutputs outs job client)
      → Ends panic IsSound (handle_worker_result cache u result outs s)
  unfolding handle_worker_result
  handle_worker_result-IsSound u result outs s h complete =
      Ends-option (HashMap.get u s.connected_workers) (λ _. Ends-ok _ h)
        λ w at.
          let free = Sound-remove_worker u h in
          Ends-option w.current_job (λ _. Ends-ok _ free)
            λ job busy.
              Ends-option (HashMap.get job.client s.clients)
                (λ _. Ends-bind (assign_jobs-Keeps _ free) λ t _ k.
                  Ends-weaken (λ v n. n.sound) (check_completion-Keeps job.client t k.sound))
                λ client here.
                  finish_job-IsSound job client result outs _ free here
                    (HashMap.All-get (HasSoundJob s.clients) u w s.connected_workers h.jobs_sound at
                      job busy client here)
                    (complete w job client at busy here)

  handle_worker_connected-IsSound :
      (u : ℕ) (name : String) (s : Scheduler F C)
      → IsSound s
      → Ends panic IsSound (handle_worker_connected u name s)
  unfolding handle_worker_connected
  handle_worker_connected-IsSound u name s h =
      let idle : ConnectedWorker = record { uuid = u; name = name; current_job = none } in
      Ends-weaken (λ t n. n.sound) (assign_jobs-Keeps _ (Sound-worker u idle (λ job k. cc) h))

  handle_status_request-IsSound :
      (c : ℕ) (s : Scheduler F C) → IsSound s → Ends panic IsSound (handle_status_request c s)
  unfolding handle_status_request
  handle_status_request-IsSound c s h =
      Ends-bind (worker_statuses-found s.clients s.now s.connected_workers h.jobs_sound)
        λ workers _ _. let kept = notify-Keeps c _ s h in Ends-ok _ kept.sound

  -- What the scheduler relies on in a message: a client that asks for an evaluation is new and
  -- files each group under its own identifier, and a worker returns the outputs of its group.
  abbrev pub IsAllowed : SchedulerMessage F → Scheduler F C → Type 0
  IsAllowed (evaluate_dag client dag watch) s =
      IsNew client.uuid s.ready_execs s.connected_workers × IsKeyed dag
  IsAllowed (worker_result u result outs) s =
      (w : ConnectedWorker) (job : CurrentJob) (client : SchedulerClientData F)
      → HashMap.get u s.connected_workers ≡ some w
      → w.current_job ≡ some job
      → HashMap.get job.client s.clients ≡ some client
      → HasOutputs outs job client
  IsAllowed _ s = Unit {0}

  pub handle-Ends :
      (m : SchedulerMessage F) (s : Scheduler F C)
      → IsSound s
      → IsAllowed m s
      → Ends panic IsSound (handle cache m s)
  unfolding handle
  handle-Ends (evaluate_dag client dag watch) s h a =
      handle_evaluate_dag-IsSound client dag watch s h a.0 a.1
  handle-Ends (file_is_ready c file key) s h a = handle_file_ready-IsSound c file key s h
  handle-Ends (worker_result u result outs) s h a = handle_worker_result-IsSound u result outs s h a
  handle-Ends (worker_connected u name) s h a = handle_worker_connected-IsSound u name s h
  handle-Ends (worker_disconnected u) s h a = handle_worker_disconnected-IsSound u s h
  handle-Ends (client_disconnected c) s h a = handle_client_disconnected-IsSound c s h
  handle-Ends (status_request c) s h a = handle_status_request-IsSound c s h

  -- Each message is allowed in the state in which it is handled.
  abbrev pub AreAllowed : List (ℕ × SchedulerMessage F) → Scheduler F C → Type 0
  AreAllowed [] s = Unit {0}
  AreAllowed ((now, m) ∷ ms) s =
      IsAllowed m (record s { now = now })
      × ((t : Scheduler F C) → handle cache m (record s { now = now }) ≡ ok t → AreAllowed ms t)

  pub run-found :
      (ms : List (ℕ × SchedulerMessage F)) (s : Scheduler F C)
      → IsSound s
      → AreAllowed ms s
      → Ends panic (λ _. Unit {0}) (run cache ms s)
  unfolding run
  run-found [] s h a = Ends-weaken (λ t n. tt) (send_worker_manager-Keeps _ s h)
  run-found ((now, m) ∷ ms) s h a =
      Ends-bind (handle-Ends m _ h a.0) λ t e sound. run-found ms t sound (a.1 t e)

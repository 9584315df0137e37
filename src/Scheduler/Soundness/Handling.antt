-- ===== src/Scheduler/Soundness/Handling.antt =====
-- The handlers of scheduler.rs that do not call the cache, and the invariant.
use task_maker_rust.Base.{
  ℕ, ◌≡◌, refl, Bool, true, false, Option, none, some, List, [], ◌∷◌, All, All-imp, if◌then◌else◌,
}
use task_maker_rust.Base.Tests.{nat_eq, nat_beq}
use task_maker_rust.Base.HashMap
use task_maker_rust.Base.HashMap.{HashMap, values}
use task_maker_rust.Base.HashSet
use task_maker_rust.Dag.Execution.{high_priority}
use task_maker_rust.Scheduler.Heap.{ReadyExec}
use task_maker_rust.Scheduler.State.{
  Scheduler, SchedulerClientData, ConnectedWorker, CurrentJob, panic, ExecutorMessage,
  send_executor, is_done,
}
use task_maker_rust.Scheduler.Clients.{job_status, worker_statuses, keep_live}
use task_maker_rust.Scheduler.Handlers.{
  check_completion, stop_job, handle_client_disconnected, reschedule, handle_worker_disconnected,
  run,
}
use task_maker_rust.Scheduler.Outcome.{
  Ends, Ends-ok, Ends-err, Ends-if, Ends-option, Ends-weaken, Ends-bind, Ends-for_each, Ends-found,
}
use task_maker_rust.Scheduler.Soundness.Invariant.{
  CacheInvariant, Executable, IsClientSound, CanRun, HasSoundJob, Sound, IsSound, Keeps, Keeps-refl,
}
use task_maker_rust.Scheduler.Soundness.Update.{same-Keeps, push-Keeps}
use task_maker_rust.Scheduler.Soundness.Running.{Sound-remove_worker, send_worker_manager-Keeps}

module _ {F : Type 0} where
  -- Every lookup of a worker's job in the DAG of its client succeeds.
  pub job_status-found :
      (clients : HashMap ℕ (SchedulerClientData F)) (now : ℕ) (job : Option CurrentJob)
      → ((j : CurrentJob) → job ≡ some j → CanRun clients j.client j.group)
      → Ends panic (λ _. Unit {0}) (job_status clients now job)
  unfolding job_status
  job_status-found clients now none run = Ends-ok _ tt
  job_status-found clients now (some job) run =
      Ends-option (HashMap.get job.client clients) (λ _. Ends-ok _ tt)
        λ client here.
          let x : Executable client job.group = run job refl client here in
          Ends-found _ x.group x.known (Ends-ok _ tt)

  pub worker_statuses-found :
      (clients : HashMap ℕ (SchedulerClientData F)) (now : ℕ) (workers : HashMap ℕ ConnectedWorker)
      → All (HasSoundJob clients) workers
      → Ends panic (λ _. Unit {0}) (worker_statuses clients now (values workers))
  unfolding worker_statuses
  worker_statuses-found clients now [] h = Ends-ok _ tt
  worker_statuses-found clients now ((u, w) ∷ ws) h =
      Ends-bind (job_status-found clients now w.current_job h.0)
        λ job _ _. Ends-bind (worker_statuses-found clients now ws h.1) λ rest _ _. Ends-ok _ tt

  CanRun-remove :
      (clients : HashMap ℕ (SchedulerClientData F)) (c d g : ℕ)
      → CanRun clients d g
      → CanRun (HashMap.remove c clients) d g
  CanRun-remove clients c d g run client h =
      run client (HashMap.get-remove-some c d client clients h)

  All-keep_live :
      (P : ReadyExec → Type 0) (clients : HashMap ℕ (SchedulerClientData F))
      (execs : List ReadyExec)
      → All P execs
      → All P (keep_live clients execs)
  unfolding keep_live
  All-keep_live P clients [] h = tt
  All-keep_live P clients (e ∷ execs) h =
      All_if (HashMap.contains_key e.client clients) (All-keep_live P clients execs h.1)
    where
      All_if :
          (b : Bool)
          → All P (keep_live clients execs)
          → All P (if b then e ∷ keep_live clients execs else keep_live clients execs)
      All_if true rest = (h.0, rest)
      All_if false rest = rest

  Sound-remove_client :
      (clients : HashMap ℕ (SchedulerClientData F)) (c : ℕ) (ready : List ReadyExec)
      (workers : HashMap ℕ ConnectedWorker) {V : Type 0}
      → Sound clients ready workers V
      → Sound (HashMap.remove c clients) (keep_live (HashMap.remove c clients) ready) workers V
  Sound-remove_client clients c ready workers h = record {
    clients_sound =
        λ d client k. h.clients_sound d client (HashMap.get-remove-some c d client clients k);
    ready_sound =
        All-keep_live _ (HashMap.remove c clients) ready
          (All-imp ready (λ e r. CanRun-remove clients c e.client e.group r) h.ready_sound);
    jobs_sound =
        All-imp workers (λ p r job j. CanRun-remove clients c job.client job.group (r job j))
          h.jobs_sound;
    cache_sound = h.cache_sound;
  }

  -- A client of which only the sets of ready and running groups change.
  pub moved-IsClientSound :
      (client : SchedulerClientData F) (ready running : List ℕ)
      → IsClientSound client
      → IsClientSound (record client { ready_groups = ready; running_groups = running })
  moved-IsClientSound client ready running old = record {
    inputs = old.inputs;
    waiting = λ g m k.
        let v = old.waiting g m k in
        record { group = v.group; known = v.known; available = v.available };
  }

module _ {F C : Type 0} ⦃inv : CacheInvariant C⦄ where
  send_executor-Keeps :
      (c : ℕ) (m : ExecutorMessage F) (s : Scheduler F C)
      → IsSound s
      → Ends panic (Keeps s) (send_executor c m s)
  unfolding send_executor
  send_executor-Keeps c m s h =
      Ends-if s.executor_open (λ _. Ends-ok _ (same-Keeps s _ refl refl refl (λ v. v) h))
        (λ _. Ends-err _ (λ e. cc))

  pub check_completion-Keeps :
      (c : ℕ) (s : Scheduler F C) → IsSound s → Ends panic (Keeps s) (check_completion c s)
  unfolding check_completion
  check_completion-Keeps c s h =
      Ends-option (HashMap.get c s.clients) (λ _. Ends-ok _ (Keeps-refl s h))
        λ client _.
          Ends-if (is_done client) (λ _. send_executor-Keeps c _ s h)
            (λ _. Ends-ok _ (Keeps-refl s h))

  stop_job-Keeps :
      (c : ℕ) (p : ℕ × ConnectedWorker) (s : Scheduler F C)
      → IsSound s
      → Ends panic (Keeps s) (stop_job c p s)
  unfolding stop_job
  stop_job-Keeps c (u, w) s h =
      Ends-option w.current_job (λ _. Ends-ok _ (Keeps-refl s h))
        λ job _.
          Ends-if (nat_beq job.client c) (λ _. send_worker_manager-Keeps _ s h)
            (λ _. Ends-ok _ (Keeps-refl s h))

  pub handle_client_disconnected-IsSound :
      (c : ℕ) (s : Scheduler F C) → IsSound s → Ends panic IsSound (handle_client_disconnected c s)
  unfolding handle_client_disconnected
  handle_client_disconnected-IsSound c s h =
      Ends-bind {P = Keeps s}
        (Ends-option (HashMap.get c s.clients) (λ _. Ends-ok _ (Keeps-refl s h))
          λ client _.
            Ends-if (is_done client) (λ _. Ends-ok _ (Keeps-refl s h))
              (λ _. send_executor-Keeps c _ s h))
        λ s1 _ k.
          Ends-for_each IsSound s1.connected_workers
            (λ p t ht. Ends-weaken (λ u n. n.sound) (stop_job-Keeps c p t ht))
            (Sound-remove_client s1.clients c s1.ready_execs s1.connected_workers k.sound)

  reschedule-IsSound :
      (job : Option CurrentJob) (s : Scheduler F C)
      → IsSound s
      → ((j : CurrentJob) → job ≡ some j → CanRun s.clients j.client j.group)
      → Ends panic IsSound (reschedule job s)
  unfolding reschedule
  reschedule-IsSound none s h run = Ends-ok _ h
  reschedule-IsSound (some job) s h run =
      Ends-option (HashMap.get job.client s.clients) (λ _. Ends-ok _ h)
        λ client here.
          let x : Executable client job.group = run job refl client here in
          let kept =
            push-Keeps
              (record {
                dag_priority = high_priority;
                priority = (x.group).priority;
                group = job.group;
                client = job.client;
              })
              client
              (record client {
                ready_groups = HashSet.insert job.group client.ready_groups;
                running_groups = HashSet.remove job.group client.running_groups;
              })
              s here (record { same_dag = refl; handles = λ f k. k })
              (moved-IsClientSound client _ _ (h.clients_sound job.client client here))
              (record { group = x.group; known = x.known; available = x.available }) h in
          Ends-found _ x.group x.known (Ends-ok _ kept.sound)

  pub handle_worker_disconnected-IsSound :
      (u : ℕ) (s : Scheduler F C) → IsSound s → Ends panic IsSound (handle_worker_disconnected u s)
  unfolding handle_worker_disconnected
  handle_worker_disconnected-IsSound u s h =
      Ends-option (HashMap.get u s.connected_workers) (λ _. Ends-ok _ h)
        λ w here.
          reschedule-IsSound w.current_job _ (Sound-remove_worker u h)
            (HashMap.All-get (HasSoundJob s.clients) u w s.connected_workers h.jobs_sound here)

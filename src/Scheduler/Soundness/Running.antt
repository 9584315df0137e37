-- ===== src/Scheduler/Soundness/Running.antt =====
-- `assign_jobs` and the jobs that are sent to the workers.
use task_maker_rust.Base.{ℕ, ◌≡◌, refl, some, List, [], ◌∷◌, All, arith, inl, inr, subst}
use mathlib.Core.Option.{some-injective}
use task_maker_rust.Base.Tests.{nat_eq, Option-cases}
use task_maker_rust.Base.HashMap
use task_maker_rust.Base.HashMap.{HashMap}
use task_maker_rust.Base.HashSet
use task_maker_rust.Base.HashSet.{HashSet}
use task_maker_rust.Dag.Group.{dependencies}
use task_maker_rust.Scheduler.Heap.{ReadyExec, pop}
use task_maker_rust.Scheduler.State.{
  Scheduler, SchedulerClientData, ConnectedWorker, CurrentJob, WorkerManagerMessage, panic,
  send_worker_manager,
}
use task_maker_rust.Scheduler.Jobs.{dep_keys, start_job, assign_each, assign_jobs}
use task_maker_rust.Scheduler.Outcome.{
  Ends, Ends-ok, Ends-err, Ends-if, Ends-option, Ends-weaken, Ends-bind, Ends-found,
}
use task_maker_rust.Scheduler.Soundness.Invariant.{
  CacheInvariant, HasHandle, Executable, CanRun, HasSoundJob, Sound, IsSound, clients-Keeps, Keeps,
  Keeps-refl, Keeps-trans,
}
use task_maker_rust.Scheduler.Soundness.Update.{
  set_client-Keeps, same-Keeps, notify_if-Keeps, All-pop,
}

pub dep_keys-found :
    (handles : HashMap ℕ ℕ) (files : List ℕ)
    → All (HasHandle handles) files
    → Ends panic (λ _. Unit {0}) (dep_keys handles files)
unfolding dep_keys
dep_keys-found handles [] h = Ends-ok _ tt
dep_keys-found handles (file ∷ files) h = elim (Option-cases (HashMap.get file handles)) [
  | inl absent ↦ absurd (ground (arith, h.0, absent))
  | inr (key, e) ↦
      Ends-found _ key e (Ends-bind (dep_keys-found handles files h.1) λ keys _ _. Ends-ok _ tt)
]

module _ {F : Type 0} where
  -- A worker that has no job, or one that can run.
  pub Sound-worker :
      {clients : HashMap ℕ (SchedulerClientData F)} {ready : List ReadyExec}
      {workers : HashMap ℕ ConnectedWorker} {V : Type 0} (u : ℕ) (w : ConnectedWorker)
      → ((job : CurrentJob) → w.current_job ≡ some job → CanRun clients job.client job.group)
      → Sound clients ready workers V
      → Sound clients ready (HashMap.insert u w workers) V
  Sound-worker {workers} u w run h = record {
    clients_sound = h.clients_sound;
    ready_sound = h.ready_sound;
    jobs_sound = HashMap.All-insert (HasSoundJob _) u w workers run h.jobs_sound;
    cache_sound = h.cache_sound;
  }

  pub Sound-remove_worker :
      {clients : HashMap ℕ (SchedulerClientData F)} {ready : List ReadyExec}
      {workers : HashMap ℕ ConnectedWorker} {V : Type 0} (u : ℕ)
      → Sound clients ready workers V
      → Sound clients ready (HashMap.remove u workers) V
  Sound-remove_worker {workers} u h = record {
    clients_sound = h.clients_sound;
    ready_sound = h.ready_sound;
    jobs_sound = HashMap.All-remove (HasSoundJob _) u workers h.jobs_sound;
    cache_sound = h.cache_sound;
  }

module _ {F C : Type 0} ⦃inv : CacheInvariant C⦄ where
  pub send_worker_manager-Keeps :
      (m : WorkerManagerMessage F) (s : Scheduler F C)
      → IsSound s
      → Ends panic (Keeps s) (send_worker_manager m s)
  unfolding send_worker_manager
  send_worker_manager-Keeps m s h =
      Ends-if s.worker_manager_open (λ _. Ends-ok _ (same-Keeps s _ refl refl refl (λ v. v) h))
        (λ _. Ends-err _ (λ e. cc))

  start_job-Keeps :
      (u : ℕ) (w : ConnectedWorker) (e : ReadyExec) (s : Scheduler F C)
      → IsSound s
      → CanRun s.clients e.client e.group
      → Ends panic (Keeps s) (start_job u w e s)
  unfolding start_job
  start_job-Keeps u w e s h run =
      Ends-option (HashMap.get e.client s.clients) (λ _. Ends-ok _ busy)
        λ client here.
          let x : Executable client e.group = run client here in
          let old = h.clients_sound e.client client here in
          let started =
            set_client-Keeps e.client client
              (record client {
                ready_groups = HashSet.remove e.group client.ready_groups;
                running_groups = HashSet.insert e.group client.running_groups;
              })
              s1 here (record { same_dag = refl; handles = λ f k. k })
              (record {
                inputs = old.inputs;
                waiting = λ g m k.
                    let v = old.waiting g m k in
                    record { group = v.group; known = v.known; available = v.available };
              })
              busy.sound in
          Ends-found _ x.group x.known (
            Ends-bind (dep_keys-found client.file_handles (dependencies (x.group)) x.available)
              λ keys _ _. Ends-bind (send_worker_manager-Keeps _ _ started.sound) λ s2 _ k.
                Ends-ok _ (Keeps-trans busy (Keeps-trans started (notify_if-Keeps _ e.client _ k))))
    where
      job : CurrentJob
      job = record { client = e.client; group = e.group; start = s.now }

      s1 : Scheduler F C
      s1 = record s {
        connected_workers =
            HashMap.insert u (record w { current_job = some job }) s.connected_workers;
      }

      busy : Keeps s s1
      busy = clients-Keeps s s1 refl (
          Sound-worker u (record w { current_job = some job })
            (λ j k.
              subst (λ (i : CurrentJob). CanRun s.clients i.client i.group) (some-injective _ _ k)
                run)
            h)

  assign_each-Keeps :
      (us : List ℕ) (s : Scheduler F C) → IsSound s → Ends panic (Keeps s) (assign_each us s)
  unfolding assign_each
  assign_each-Keeps [] s h = Ends-ok _ (Keeps-refl s h)
  assign_each-Keeps (u ∷ us) s h =
      Ends-option (HashMap.get u s.connected_workers) (λ _. assign_each-Keeps us s h)
        λ w _.
          Ends-option w.current_job
            (λ _.
              Ends-option (pop s.ready_execs) (λ _. Ends-ok _ (Keeps-refl s h))
                λ p popped.
                  let split =
                    All-pop (λ e. CanRun s.clients e.client e.group) s.ready_execs p.1 p.0 popped
                      h.ready_sound in
                  let rest : IsSound (record s { ready_execs = p.1 }) = record {
                    clients_sound = h.clients_sound;
                    ready_sound = split.1;
                    jobs_sound = h.jobs_sound;
                    cache_sound = h.cache_sound;
                  } in
                  let left = clients-Keeps s (record s { ready_execs = p.1 }) refl rest in
                  Ends-bind (start_job-Keeps u w p.0 _ rest split.0) λ t _ k.
                    Ends-weaken (λ v n. Keeps-trans left (Keeps-trans k n))
                      (assign_each-Keeps us t k.sound))
            (λ _ _. assign_each-Keeps us s h)

  pub assign_jobs-Keeps : (s : Scheduler F C) → IsSound s → Ends panic (Keeps s) (assign_jobs s)
  unfolding assign_jobs
  assign_jobs-Keeps s h = assign_each-Keeps (HashMap.keys s.connected_workers) s h

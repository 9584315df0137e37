-- ===== src/Scheduler/Soundness/Joining.antt =====
-- `handle_evaluate_dag` of scheduler.rs: a new client.
use task_maker_rust.Base.{
  ℕ, ◌≡◌, refl, sym, ◌≢◌, String, some, List, [], ◌∷◌, All, All-imp, inl, inr, subst,
}
use task_maker_rust.Base.Tests.{nat_eq}
use task_maker_rust.Base.HashMap
use task_maker_rust.Base.HashMap.{HashMap, values}
use task_maker_rust.Dag.Group.{ExecutionGroup, dependencies}
use task_maker_rust.Dag.Data.{ExecutionDagData, ExecutionDagWatchSet}
use task_maker_rust.Scheduler.Heap.{ReadyExec}
use task_maker_rust.Scheduler.State.{
  Scheduler, SchedulerClientData, ConnectedWorker, CurrentJob, new_client_data, set_client,
}
use task_maker_rust.Scheduler.Handlers.{handle, run}
use task_maker_rust.Scheduler.Soundness.Invariant.{IsClientSound, CanRun, Sound}
use task_maker_rust.Scheduler.Soundness.Update.{CanRun-insert_self}
use task_maker_rust.Scheduler.Soundness.Evaluating.{IsOldOrNew, IsPartial}

-- Nothing that is planned belongs to the client: it is a new one.
pub record IsNew (c : ℕ) (ready : List ReadyExec) (workers : HashMap ℕ ConnectedWorker)
    : Type 0 where
  pub not_ready : All (λ e. e.client ≢ c) ready
  pub not_running :
      All (λ p. (job : CurrentJob) → (p.1).current_job ≡ some job → job.client ≢ c) workers

All-both :
    {A : Type 0} (P Q : A → Type 0) (xs : List A) → All P xs → All Q xs → All (λ x. P x × Q x) xs
All-both P Q [] p q = tt
All-both P Q (x ∷ xs) p q = ((p.0, q.0), All-both P Q xs p.1 q.1)

module _ {F : Type 0} where
  -- Each group of the DAG is filed under its own identifier.
  abbrev pub IsKeyed : ExecutionDagData F → Type 0
  IsKeyed dag =
      All (λ (g : ExecutionGroup F). HashMap.get g.uuid dag.execution_groups ≡ some g)
        (values dag.execution_groups)

  CanRun-insert_ne :
      (clients : HashMap ℕ (SchedulerClientData F)) (c d g : ℕ) (new : SchedulerClientData F)
      → d ≢ c
      → CanRun clients d g
      → CanRun (HashMap.insert c new clients) d g
  CanRun-insert_ne clients c d g new other run client h =
      elim (HashMap.get-insert_cases c d new client clients h) [
        | inl (same, _) ↦ absurd (other (sym same))
        | inr before ↦ run client before
      ]

  CanRun-of_old_or_new :
      (dag : ExecutionDagData F) (c : ℕ) (clients : HashMap ℕ (SchedulerClientData F))
      (new : SchedulerClientData F) (e : ReadyExec)
      → IsOldOrNew dag c clients new e
      → CanRun (HashMap.insert c new clients) e.client e.group
  CanRun-of_old_or_new dag c clients new e (inl (other, run)) =
      CanRun-insert_ne clients c e.client e.group new other run
  CanRun-of_old_or_new dag c clients new e (inr (mine, run)) =
      rw mine (CanRun-insert_self clients c e.group new run)

  -- A client joins, whose data and queue come from the loop of `handle_evaluate_dag`.
  pub Sound-join :
      (dag : ExecutionDagData F) (c : ℕ) (clients : HashMap ℕ (SchedulerClientData F))
      (old ready : List ReadyExec) (workers : HashMap ℕ ConnectedWorker)
      (new : SchedulerClientData F) {V : Type 0}
      → IsNew c old workers
      → Sound clients old workers V
      → IsPartial dag c clients (new, ready)
      → Sound (HashMap.insert c new clients) ready workers V
  Sound-join dag c clients old ready workers new fresh h part = record {
    clients_sound = λ d client k. elim (HashMap.get-insert_cases c d new client clients k) [
      | inl (_, e) ↦ subst IsClientSound e part.sound
      | inr before ↦ h.clients_sound d client before
    ];
    ready_sound = All-imp ready (CanRun-of_old_or_new dag c clients new) part.queue;
    jobs_sound =
        All-imp workers
          (λ p r job j. CanRun-insert_ne clients c job.client job.group new (r.0 job j) (r.1 job j))
          (All-both _ _ workers fresh.not_running h.jobs_sound);
    cache_sound = h.cache_sound;
  }

  pub new_client-IsPartial :
      (name : String) (dag : ExecutionDagData F) (watch : ExecutionDagWatchSet) (c : ℕ)
      (clients : HashMap ℕ (SchedulerClientData F)) (ready : List ReadyExec)
      → All (λ e. e.client ≢ c) ready
      → All (λ e. CanRun clients e.client e.group) ready
      → IsPartial dag c clients (new_client_data name dag watch, ready)
  unfolding new_client_data HashMap.get
  new_client-IsPartial name dag watch c clients ready other run = record {
    same_dag = refl;
    sound = record { inputs = λ f groups h. cc; waiting = λ g m h. cc };
    queue = All-imp ready (λ e r. inl r) (All-both _ _ ready other run);
  }

  -- A client that learns the handle of one more file.
  pub handle_IsClientSound :
      (client : SchedulerClientData F) (file handle : ℕ)
      → IsClientSound client
      → IsClientSound
          (record client { file_handles = HashMap.insert file handle client.file_handles })
  handle_IsClientSound client file handle old = record {
    inputs = old.inputs;
    waiting = λ g m k.
        let w = old.waiting g m k in
        record {
          group = w.group;
          known = w.known;
          available =
              All-imp (dependencies (w.group))
                (λ f r. elim r [
                  | inl waited ↦ inl waited
                  | inr there ↦
                      inr (HashMap.contains_key-insert file f handle client.file_handles there)
                ])
                w.available;
        };
  }

pub get-set_client_self :
    {F C : Type 0} (c : ℕ) (client : SchedulerClientData F) (s : Scheduler F C)
    → HashMap.get c (set_client c client s).clients ≡ some client
unfolding set_client
get-set_client_self c client s = HashMap.get-insert_self c client s.clients

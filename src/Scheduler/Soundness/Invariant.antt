-- ===== src/Scheduler/Soundness/Invariant.antt =====
-- The invariant: what the scheduler plans to run can run.
use task_maker_rust.Base.{ℕ, ◌≡◌, refl, ◌∙◌, true, some, List, All, All-imp, ◌⊎◌}
use task_maker_rust.Base.Tests.{nat_eq}
use task_maker_rust.Base.HashMap
use task_maker_rust.Base.HashMap.{HashMap}
use task_maker_rust.Base.HashSet
use task_maker_rust.Base.HashSet.{HashSet}
use task_maker_rust.Dag.Group.{ExecutionGroup, dependencies}
use task_maker_rust.Dag.Data.{ExecutionDagData}
use task_maker_rust.Scheduler.Heap.{ReadyExec}
use task_maker_rust.Scheduler.State.{Scheduler, SchedulerClientData, ConnectedWorker, CurrentJob}

abbrev pub HasHandle : HashMap ℕ ℕ → ℕ → Type 0
HasHandle handles file = HashMap.contains_key file handles ≡ true

-- What a cache needs of its content, so that it keeps its promises.
pub record CacheInvariant (C : Type 0) : Type 1 where
  pub IsValid : C → Type 0

module _ {F : Type 0} where
  abbrev pub HasGroup : ExecutionDagData F → ℕ → Type 0
  HasGroup dag g = (group : ExecutionGroup F) × (HashMap.get g dag.execution_groups ≡ some group)

  -- The group is in the DAG of the client, and all the files that it reads are there.
  pub record Executable (client : SchedulerClientData F) (g : ℕ) : Type 0 where
    pub group : ExecutionGroup F
    pub known : HashMap.get g client.dag.execution_groups ≡ some group
    pub available : All (HasHandle client.file_handles) (dependencies group)

  -- The group is in the DAG of the client, and each file that it reads is there or is waited for.
  pub record Waits (client : SchedulerClientData F) (g : ℕ) (missing : HashSet ℕ) : Type 0 where
    pub group : ExecutionGroup F
    pub known : HashMap.get g client.dag.execution_groups ≡ some group
    pub available :
        All
          (λ f. (HashSet.contains f missing ≡ true) ⊎ HasHandle client.file_handles f)
          (dependencies group)

  pub record IsClientSound (client : SchedulerClientData F) : Type 0 where
    pub inputs :
        (f : ℕ) (groups : HashSet ℕ)
        → HashMap.get f client.input_of ≡ some groups
        → All (HasGroup client.dag) groups
    pub waiting :
        (g : ℕ) (missing : HashSet ℕ)
        → HashMap.get g client.missing_deps ≡ some missing
        → Waits client g missing

  -- The group of a client, if the client is still there, can run.
  abbrev pub CanRun : HashMap ℕ (SchedulerClientData F) → ℕ → ℕ → Type 0
  CanRun clients c g =
      (client : SchedulerClientData F) → HashMap.get c clients ≡ some client → Executable client g

  abbrev pub HasSoundJob : HashMap ℕ (SchedulerClientData F) → ℕ × ConnectedWorker → Type 0
  HasSoundJob clients (u, w) =
      (job : CurrentJob) → w.current_job ≡ some job → CanRun clients job.client job.group

  pub record Sound (clients : HashMap ℕ (SchedulerClientData F)) (ready : List ReadyExec)
      (workers : HashMap ℕ ConnectedWorker) (V : Type 0) : Type 0 where
    pub clients_sound :
        (c : ℕ) (client : SchedulerClientData F)
        → HashMap.get c clients ≡ some client
        → IsClientSound client
    pub ready_sound : All (λ e. CanRun clients e.client e.group) ready
    pub jobs_sound : All (HasSoundJob clients) workers
    pub cache_sound : V

  -- A later state of a client: the same DAG, and no handle is lost.
  pub record Extends (old new : SchedulerClientData F) : Type 0 where
    pub same_dag : new.dag ≡ old.dag
    pub handles : (f : ℕ) → HasHandle old.file_handles f → HasHandle new.file_handles f

  pub Extends-refl : (client : SchedulerClientData F) → Extends client client
  Extends-refl client = record { same_dag = refl; handles = λ f h. h }

  pub Extends-trans : {a b c : SchedulerClientData F} → Extends a b → Extends b c → Extends a c
  Extends-trans p q = record {
    same_dag = q.same_dag ∙ p.same_dag;
    handles = λ f h. q.handles f (p.handles f h);
  }

  pub Executable-Extends :
      {old new : SchedulerClientData F} (g : ℕ)
      → Extends old new
      → Executable old g
      → Executable new g
  Executable-Extends g x e = record {
    group = e.group;
    known = rw (x.same_dag) e.known;
    available = All-imp (dependencies (e.group)) x.handles e.available;
  }

module _ {F C : Type 0} ⦃inv : CacheInvariant C⦄ where
  abbrev pub IsSound : Scheduler F C → Type 0
  IsSound s = Sound s.clients s.ready_execs s.connected_workers (inv.IsValid s.cache)

  -- No client is lost, and each has kept its DAG and its handles.
  abbrev pub Grows : Scheduler F C → Scheduler F C → Type 0
  Grows s t =
      (c : ℕ) (client : SchedulerClientData F)
      → HashMap.get c s.clients ≡ some client
      → (later : SchedulerClientData F) × (HashMap.get c t.clients ≡ some later)
        × Extends client later

  -- No client is made up.
  abbrev pub Stems : Scheduler F C → Scheduler F C → Type 0
  Stems s t =
      (c : ℕ) (later : SchedulerClientData F)
      → HashMap.get c t.clients ≡ some later
      → (client : SchedulerClientData F) × (HashMap.get c s.clients ≡ some client)
        × Extends client later

  -- What every step of a handler does to a sound state.
  pub record Keeps (s t : Scheduler F C) : Type 0 where
    pub sound : IsSound t
    pub grows : Grows s t
    pub stems : Stems s t

  pub clients-Keeps : (s t : Scheduler F C) → t.clients ≡ s.clients → IsSound t → Keeps s t
  clients-Keeps s t e h = record {
    sound = h;
    grows = λ c client k. (client, rw e k, Extends-refl client);
    stems = λ c client k. (client, rw e at k, Extends-refl client);
  }

  pub Keeps-refl : (s : Scheduler F C) → IsSound s → Keeps s s
  Keeps-refl s h = clients-Keeps s s refl h

  pub Keeps-trans : {s t u : Scheduler F C} → Keeps s t → Keeps t u → Keeps s u
  Keeps-trans {s} {t} {u} p q = record {
    sound = q.sound;
    grows = λ c client h.
        let (later, h1, x) = p.grows c client h in
        let (last, h2, y) = q.grows c later h1 in (last, h2, Extends-trans x y);
    stems = λ c last h.
        let (later, h1, y) = q.stems c last h in
        let (client, h2, x) = p.stems c later h1 in (client, h2, Extends-trans x y);
  }

  pub CanRun-Keeps :
      {s t : Scheduler F C} (c g : ℕ) → Keeps s t → CanRun s.clients c g → CanRun t.clients c g
  CanRun-Keeps c g k run later h =
      let (client, before, x) = k.stems c later h in Executable-Extends g x (run client before)

  -- The client is there, with handles of the files.
  abbrev pub Holds : Scheduler F C → ℕ → List ℕ → Type 0
  Holds s c files =
      (client : SchedulerClientData F) × (HashMap.get c s.clients ≡ some client)
      × All (HasHandle client.file_handles) files

  pub Holds-Keeps :
      {s t : Scheduler F C} (c : ℕ) (files : List ℕ) → Keeps s t → Holds s c files → Holds t c files
  Holds-Keeps c files k (client, here, handles) =
      let (later, there, x) = k.grows c client here in
      (later, there, All-imp files x.handles handles)

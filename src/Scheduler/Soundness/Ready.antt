-- ===== src/Scheduler/Soundness/Ready.antt =====
-- The loop of `file_success`, and the groups that become ready.
use task_maker_rust.Base.{ℕ, ◌≡◌, refl, true, some, is_empty, All-imp, inl, inr, subst}
use task_maker_rust.Base.Tests.{nat_eq}
use task_maker_rust.Base.HashMap
use task_maker_rust.Base.HashMap.{HashMap}
use task_maker_rust.Base.HashSet
use task_maker_rust.Base.HashSet.{HashSet}
use task_maker_rust.Dag.Execution.{high_priority}
use task_maker_rust.Dag.Group.{dependencies}
use task_maker_rust.Scheduler.State.{Scheduler, SchedulerClientData, panic, set_client}
use task_maker_rust.Scheduler.Files.{send_file, mark_group, mark_file}
use task_maker_rust.Scheduler.Outcome.{
  Ends, Ends-ok, Ends-if, Ends-option, Ends-weaken, Ends-bind, Ends-for_each-All, Ends-found,
}
use task_maker_rust.Scheduler.Soundness.Invariant.{
  CacheInvariant, HasHandle, HasGroup, Executable, Waits, IsClientSound, Extends, IsSound, Keeps,
  Keeps-refl, Keeps-trans,
}
use task_maker_rust.Scheduler.Soundness.Update.{set_client-Keeps, send_file-Keeps, push-Keeps}
use task_maker_rust.Scheduler.Frame.{send_file-clients}

module _ {F : Type 0} where
  -- Nothing is left to wait for, so the group can run.
  Executable-Waits :
      (client : SchedulerClientData F) (g file : ℕ) (files : HashSet ℕ)
      → is_empty (HashSet.remove file files) ≡ true
      → HasHandle client.file_handles file
      → Waits client g files
      → Executable client g
  Executable-Waits client g file files last handle w = record {
    group = w.group;
    known = w.known;
    available =
        All-imp (dependencies (w.group))
          (λ f r. elim r [
            | inl waited ↦
                subst (HasHandle client.file_handles)
                  (HashSet.eq-of_remove_empty file f files last waited) handle
            | inr there ↦ there
          ])
          w.available;
  }

  Waits-remove :
      (client : SchedulerClientData F) (g file : ℕ) (files : HashSet ℕ)
      → HasHandle client.file_handles file
      → Waits client g files
      → Waits client g (HashSet.remove file files)
  Waits-remove client g file files handle w = record {
    group = w.group;
    known = w.known;
    available =
        All-imp (dependencies (w.group))
          (λ f r. elim r [
            | inl waited ↦ elim (HashSet.contains-remove_ne file f files waited) [
              | inl same ↦ inr (subst (HasHandle client.file_handles) same handle)
              | inr still ↦ inl still
            ]
            | inr there ↦ inr there
          ])
          w.available;
  }

  -- A client whose waiting groups come from the old ones.
  IsClientSound-ready :
      (client : SchedulerClientData F) (g : ℕ) (ready : HashSet ℕ)
      → IsClientSound client
      → IsClientSound (record client {
        missing_deps = HashMap.remove g client.missing_deps;
        ready_groups = ready;
      })
  IsClientSound-ready client g ready h = record {
    inputs = h.inputs;
    waiting = λ j missing e.
        let w = h.waiting j missing (HashMap.get-remove-some g j missing client.missing_deps e) in
        record { group = w.group; known = w.known; available = w.available };
  }

  IsClientSound-wait :
      (client : SchedulerClientData F) (g : ℕ) (files : HashSet ℕ)
      → IsClientSound client
      → Waits client g files
      → IsClientSound (record client { missing_deps = HashMap.insert g files client.missing_deps })
  IsClientSound-wait client g files h w = record {
    inputs = h.inputs;
    waiting = λ j missing e.
        let v : Waits client j missing =
          elim (HashMap.get-insert_cases g j files missing client.missing_deps e) [
            | inl (same, value) ↦
                subst (λ m. Waits client j m) value (subst (λ x. Waits client x files) same w)
            | inr before ↦ h.waiting j missing before
          ] in
        record { group = v.group; known = v.known; available = v.available };
  }

module _ {F C : Type 0} ⦃inv : CacheInvariant C⦄ where
  -- The client is there with a handle of the file, and the group is in its DAG.
  abbrev Reads : Scheduler F C → ℕ → ℕ → ℕ → Type 0
  Reads s c file g =
      (client : SchedulerClientData F) × (HashMap.get c s.clients ≡ some client)
      × HasHandle client.file_handles file
      × HasGroup client.dag g

  Reads-Keeps :
      {s t : Scheduler F C} (c file g : ℕ) → Keeps s t → Reads s c file g → Reads t c file g
  Reads-Keeps c file g k (client, here, handle, found) =
      let (later, there, x) = k.grows c client here in
      (later, there, x.handles file handle, (found.0, rw (x.same_dag) found.1))

  mark_group-Keeps :
      (c file g : ℕ) (s : Scheduler F C)
      → IsSound s
      → Reads s c file g
      → Ends panic (Keeps s) (mark_group c file g s)
  unfolding mark_group set_client
  mark_group-Keeps c file g s h (client, here, handle, found) = Ends-found _ client here (
      Ends-found _ found.0 found.1 (
        Ends-option (HashMap.get g client.missing_deps) (λ _. Ends-ok _ (Keeps-refl s h))
          λ files waits.
            Ends-if (is_empty (HashSet.remove file files))
              (λ last. Ends-ok _ (
                push-Keeps
                  (record {
                    dag_priority = high_priority;
                    priority = (found.0).priority;
                    group = g;
                    client = c;
                  })
                  client _ s here (extends _ _)
                  (IsClientSound-ready client g (HashSet.insert g client.ready_groups) sound)
                  (let run =
                      Executable-Waits client g file files last handle
                        (sound.waiting g files waits) in
                    record { group = run.group; known = run.known; available = run.available })
                  h))
              (λ _. Ends-ok _ (
                set_client-Keeps c client _ s here (extends _ _)
                  (IsClientSound-wait client g (HashSet.remove file files) sound
                    (Waits-remove client g file files handle (sound.waiting g files waits)))
                  h))))
    where
      sound : IsClientSound client
      sound = h.clients_sound c client here

      extends :
          (missing : HashMap ℕ (HashSet ℕ)) (ready : HashSet ℕ)
          → Extends client (record client { missing_deps = missing; ready_groups = ready })
      extends missing ready = record { same_dag = refl; handles = λ f k. k }

  pub mark_file-Keeps :
      (c file : ℕ) (s : Scheduler F C)
      → IsSound s
      → ((client : SchedulerClientData F)
          → HashMap.get c s.clients ≡ some client
          → HasHandle client.file_handles file)
      → Ends panic (λ p. Keeps s p.1) (mark_file c file s)
  unfolding mark_file
  mark_file-Keeps c file s h handle =
      let sent = send_file-Keeps c file true s h in
      let same : (send_file c file true s).clients ≡ s.clients = send_file-clients c file true s in
      Ends-option (HashMap.get c (send_file c file true s).clients) (λ _. Ends-ok _ sent)
        λ client here.
          Ends-option (HashMap.get file client.input_of) (λ _. Ends-ok _ sent)
            λ groups reads.
              Ends-bind
                (Ends-for_each-All (Keeps (send_file c file true s)) groups
                  (λ g t known k.
                    Ends-weaken (λ u n. Keeps-trans k n)
                      (mark_group-Keeps c file g t k.sound (
                        Reads-Keeps c file g k
                          (client, here, handle client (rw same at here), known))))
                  ((sent.sound.clients_sound c client here).inputs file groups reads)
                  (Keeps-refl _ sent.sound))
                λ t _ k. Ends-ok _ (Keeps-trans sent k)

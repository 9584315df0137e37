-- ===== src/Scheduler/Soundness/Failing.antt =====
-- `file_failed` and the loops over the groups that read a file.
use task_maker_rust.Base.{ℕ, zero, suc, ◌≡◌, refl, false, some, List}
use task_maker_rust.Base.Tests.{nat_eq}
use task_maker_rust.Base.HashMap
use task_maker_rust.Base.HashMap.{HashMap}
use task_maker_rust.Scheduler.State.{Scheduler, SchedulerClientData, panic, set_client}
use task_maker_rust.Scheduler.Files.{send_file, skip_group, file_failed_fuel, file_failed}
use task_maker_rust.Scheduler.Outcome.{
  Ends, Ends-ok, Ends-err, Ends-option, Ends-weaken, Ends-bind, Ends-for_each, Ends-for_each-All,
  Ends-found,
}
use task_maker_rust.Scheduler.Soundness.Invariant.{
  CacheInvariant, HasGroup, IsClientSound, IsSound, Keeps, Keeps-refl, Keeps-trans,
}
use task_maker_rust.Scheduler.Soundness.Update.{notify_if-Keeps, set_client-Keeps, send_file-Keeps}

module _ {F : Type 0} where
  IsClientSound-skip :
      (client : SchedulerClientData F) (g : ℕ)
      → IsClientSound client
      → IsClientSound (record client { missing_deps = HashMap.remove g client.missing_deps })
  IsClientSound-skip client g h = record {
    inputs = h.inputs;
    waiting = λ j missing e.
        let w = h.waiting j missing (HashMap.get-remove-some g j missing client.missing_deps e) in
        record { group = w.group; known = w.known; available = w.available };
  }

module _ {F C : Type 0} ⦃inv : CacheInvariant C⦄ where
  -- The client is there, and the group is in its DAG.
  abbrev pub Knows : Scheduler F C → ℕ → ℕ → Type 0
  Knows s c g =
      (client : SchedulerClientData F) × (HashMap.get c s.clients ≡ some client)
      × HasGroup client.dag g

  pub Knows-Keeps : {s t : Scheduler F C} (c g : ℕ) → Keeps s t → Knows s c g → Knows t c g
  Knows-Keeps c g k (client, here, found) =
      let (later, there, x) = k.grows c client here in
      (later, there, (found.0, rw (x.same_dag) found.1))

  -- The lookups of the client and of the group succeed.
  skip_group-Keeps :
      (c g : ℕ) (s : Scheduler F C) (files : List ℕ)
      → IsSound s
      → Knows s c g
      → Ends panic (λ p. Keeps s p.0) (skip_group c g (s, files))
  unfolding skip_group
  skip_group-Keeps c g s files h (client, here, found) = Ends-found _ client here (
      Ends-option (HashMap.get g client.missing_deps) (λ _. Ends-ok _ (Keeps-refl s h))
        λ missing waits. Ends-found _ found.0 found.1 (Ends-ok _ (notify_if-Keeps _ c _ after)))
    where
      skipped : SchedulerClientData F
      skipped = record client { missing_deps = HashMap.remove g client.missing_deps }

      after : Keeps s (set_client c skipped s)
      after =
          set_client-Keeps c client skipped s here (record { same_dag = refl; handles = λ f k. k })
            (IsClientSound-skip client g (h.clients_sound c client here)) h

  file_failed_fuel-Keeps :
      (fuel c file : ℕ) (s : Scheduler F C)
      → IsSound s
      → Ends panic (Keeps s) (file_failed_fuel fuel c file s)
  unfolding file_failed_fuel
  file_failed_fuel-Keeps zero c file s h = Ends-err _ (λ e. cc)
  file_failed_fuel-Keeps (suc fuel) c file s h =
      let sent = send_file-Keeps c file false s h in
      Ends-option (HashMap.get c (send_file c file false s).clients) (λ _. Ends-ok _ sent)
        λ client here.
          Ends-option (HashMap.get file client.input_of) (λ _. Ends-ok _ sent)
            λ groups reads.
              Ends-bind
                (Ends-for_each-All (λ p. Keeps (send_file c file false s) p.0) groups
                  (λ g p known k.
                    Ends-weaken (λ q n. Keeps-trans k n)
                      (skip_group-Keeps c g p.0 p.1 k.sound
                        (Knows-Keeps c g k (client, here, known))))
                  ((sent.sound.clients_sound c client here).inputs file groups reads)
                  (Keeps-refl _ sent.sound))
                λ p _ k.
                  Ends-for_each (Keeps s) p.1
                    (λ f t n.
                      Ends-weaken (λ u m. Keeps-trans n m)
                        (file_failed_fuel-Keeps fuel c f t n.sound))
                    (Keeps-trans sent k)

  pub file_failed-Keeps :
      (c file : ℕ) (s : Scheduler F C) → IsSound s → Ends panic (Keeps s) (file_failed c file s)
  unfolding file_failed
  file_failed-Keeps c file s h = file_failed_fuel-Keeps _ c file s h

-- ===== src/Scheduler/Termination/Loops.antt =====
-- The functions of scheduler.rs, one by one, and the number of groups that are not completed.
use task_maker_rust.Base.{
  ℕ, zero, suc, ◌≤◌, ◌<◌, ◌≡◌, refl, ◌⊎◌, inl, true, false, List, [], ◌∷◌, length, arith, Result,
  is_empty,
}
use task_maker_rust.Base.Tests.{nat_eq}
use task_maker_rust.Base.HashMap
use task_maker_rust.Base.HashMap.{HashMap}
use task_maker_rust.Base.HashSet
use task_maker_rust.Dag.Group.{dependencies}
use task_maker_rust.Scheduler.Heap.{ReadyExec, pop}
use task_maker_rust.Scheduler.State.{
  Scheduler, ConnectedWorker, Error, out_of_fuel, notify, set_client, send_worker_manager,
}
use task_maker_rust.Scheduler.Files.{
  waiting_groups, send_file, for_each, skip_group, file_failed_fuel, file_failed, mark_group,
  mark_file,
}
use task_maker_rust.Scheduler.Jobs.{dep_keys, start_job, assign_each, assign_jobs}
use task_maker_rust.Scheduler.Completion.{pending}
use task_maker_rust.Scheduler.Outcome.{
  Ends, Ends-ok, Ends-err, Ends-if, Ends-option, Ends-weaken, Ends-bind, Ends-for_each,
  Ends-or_panic,
}
use task_maker_rust.Scheduler.Frame.{send_file-clients, send_file-ready_execs}
use task_maker_rust.Scheduler.Termination.Count.{waiting_groups-insert, length-pop}

pub dep_keys-Ends :
    (handles : HashMap ℕ ℕ) (files : List ℕ)
    → Ends out_of_fuel (λ _. Unit {0}) (dep_keys handles files)
unfolding dep_keys
dep_keys-Ends handles [] = Ends-ok _ tt
dep_keys-Ends handles (file ∷ files) =
    Ends-bind (Ends-or_panic (HashMap.get file handles) (λ _ e. cc))
      λ h _ _. Ends-bind (dep_keys-Ends handles files) λ keys _ _. Ends-ok _ tt

module _ {F C : Type 0} where
  -- At most `w` groups wait, and at most `r` are in the queue.
  abbrev pub Within : ℕ → ℕ → Scheduler F C → Type 0
  Within w r s = (waiting_groups s.clients ≤ w) × (length s.ready_execs ≤ r)

  -- A failed file costs a waiting group for each output that fails with it.
  abbrev Skipped : ℕ → ℕ → Scheduler F C × List ℕ → Type 0
  Skipped w r p = Within w r p.0 × ((p.1 ≡ []) ⊎ (waiting_groups (p.0).clients < w))

  skip_group-Skipped :
      (w r c g : ℕ) (s : Scheduler F C) (files : List ℕ)
      → Skipped w r (s, files)
      → Ends out_of_fuel (Skipped w r) (skip_group c g (s, files))
  unfolding skip_group set_client notify
  skip_group-Skipped w r c g s files h =
      Ends-bind (Ends-or_panic (HashMap.get c s.clients) (λ _ e. cc)) λ client _ here.
        Ends-option (HashMap.get g client.missing_deps) (λ _. Ends-ok _ h)
          λ missing waits. Ends-bind (Ends-or_panic _ (λ _ e. cc)) λ group _ _. Ends-ok _ (
            let skipped = record client { missing_deps = HashMap.remove g client.missing_deps } in
            ground (
              arith,
              waiting_groups-insert c client skipped s.clients here,
              HashMap.length-remove_present g missing client.missing_deps waits,
            ))

  -- The outputs of the skipped groups, each by a call of the function with less fuel.
  file_failed_rest :
      (w r : ℕ) (body : ℕ → Scheduler F C → Result Error (Scheduler F C)) (s : Scheduler F C)
      (files : List ℕ)
      → ((v : ℕ) (f : ℕ) (t : Scheduler F C)
          → v < w
          → Within v r t
          → Ends out_of_fuel (Within v r) (body f t))
      → Skipped w r (s, files)
      → Ends out_of_fuel (Within w r) (for_each body files s)
  unfolding for_each
  file_failed_rest w r body s [] call h = Ends-ok _ h.0
  file_failed_rest w r body s (f ∷ fs) call h =
      let v : ℕ = waiting_groups s.clients in
      Ends-weaken {P = Within v r} (λ t q. (ground arith, q.1))
        (Ends-for_each (Within v r) (f ∷ fs) (λ g t q. call v g t (ground arith) q) (ground arith))

  file_failed_fuel-Within :
      (fuel w r c file : ℕ) (s : Scheduler F C)
      → w < fuel
      → Within w r s
      → Ends out_of_fuel (Within w r) (file_failed_fuel fuel c file s)
  unfolding file_failed_fuel
  file_failed_fuel-Within zero w r c file s enough h = elim enough [ ]
  file_failed_fuel-Within (suc fuel) w r c file s enough h =
      let sent : Within w r (send_file c file false s) =
        rw (send_file-clients c file false s, send_file-ready_execs c file false s) h in
      Ends-option (HashMap.get c (send_file c file false s).clients) (λ _. Ends-ok _ sent)
        λ client _.
          Ends-option (HashMap.get file client.input_of) (λ _. Ends-ok _ sent)
            λ groups _.
              Ends-bind
                (Ends-for_each (Skipped w r) groups (λ g p q. skip_group-Skipped w r c g p.0 p.1 q)
                  (sent, inl refl))
                λ p _ q.
                  file_failed_rest w r (file_failed_fuel fuel c) p.0 p.1
                    (λ v f t less k. file_failed_fuel-Within fuel v r c f t (omega arith) k) q

  pub file_failed-Within :
      (w r c file : ℕ) (s : Scheduler F C)
      → Within w r s
      → Ends out_of_fuel (Within w r) (file_failed c file s)
  unfolding file_failed
  file_failed-Within w r c file s h =
      let n : ℕ = waiting_groups s.clients in
      Ends-weaken {P = Within n r} (λ t q. (omega (arith, q.0, h.0), q.1))
        (file_failed_fuel-Within (suc n) n r c file s (omega arith) (omega arith, h.1))

  pub mark_group-pending :
      (n c file g : ℕ) (s : Scheduler F C)
      → pending s ≤ n
      → Ends out_of_fuel (λ t. pending t ≤ n) (mark_group c file g s)
  unfolding mark_group pending set_client
  mark_group-pending n c file g s h =
      Ends-bind (Ends-or_panic (HashMap.get c s.clients) (λ _ e. cc)) λ client _ here.
        Ends-bind (Ends-or_panic _ (λ _ e. cc)) λ group _ _.
          Ends-option (HashMap.get g client.missing_deps) (λ _. Ends-ok _ h)
            λ files waits.
              Ends-if (is_empty (HashSet.remove file files))
                (λ _. Ends-ok _ (
                  let ready = record client {
                    missing_deps = HashMap.remove g client.missing_deps;
                    ready_groups = HashSet.insert g client.ready_groups;
                  } in
                  omega (
                    arith,
                    waiting_groups-insert c client ready s.clients here,
                    HashMap.length-remove_present g files client.missing_deps waits,
                  )))
                (λ _. Ends-ok _ (
                  let less = record client {
                    missing_deps = HashMap.insert g (HashSet.remove file files) client.missing_deps;
                  } in
                  omega (
                    arith,
                    waiting_groups-insert c client less s.clients here,
                    HashMap.length-insert_present g files (HashSet.remove file files)
                        client.missing_deps waits,
                  )))

  pub mark_file-pending :
      (n c file : ℕ) (s : Scheduler F C)
      → pending s ≤ n
      → Ends out_of_fuel (λ p. pending p.1 ≤ n) (mark_file c file s)
  unfolding mark_file
  mark_file-pending n c file s h =
      let sent : pending (send_file c file true s) ≤ n =
        unfold pending in
        rw (send_file-clients c file true s, send_file-ready_execs c file true s) h in
      Ends-option (HashMap.get c (send_file c file true s).clients) (λ _. Ends-ok _ sent)
        λ client _.
          Ends-option (HashMap.get file client.input_of) (λ _. Ends-ok _ sent)
            λ groups _.
              Ends-bind
                (Ends-for_each (λ t. pending t ≤ n) groups
                  (λ g t q. mark_group-pending n c file g t q) sent)
                λ t _ q. Ends-ok _ q

  start_job-pending :
      (n u : ℕ) (w : ConnectedWorker) (e : ReadyExec) (s : Scheduler F C)
      → pending s ≤ n
      → Ends out_of_fuel (λ t. pending t ≤ n) (start_job u w e s)
  unfolding start_job pending set_client send_worker_manager notify
  start_job-pending n u w e s h =
      Ends-option (HashMap.get e.client s.clients) (λ _. Ends-ok _ h)
        λ client here. Ends-bind (Ends-or_panic _ (λ _ x. cc)) λ group _ _.
          Ends-bind (dep_keys-Ends client.file_handles (dependencies group)) λ keys _ _.
            let running = record client {
              ready_groups = HashSet.remove e.group client.ready_groups;
              running_groups = HashSet.insert e.group client.running_groups;
            } in
            let same = waiting_groups-insert e.client client running s.clients here in
            Ends-bind {P = λ t. pending t ≤ n}
              (Ends-if s.worker_manager_open (λ _. Ends-ok _ (omega (arith, same)))
                (λ _. Ends-err _ (λ x. cc)))
              λ t _ q. Ends-ok _ (ground arith)

  assign_each-pending :
      (n : ℕ) (us : List ℕ) (s : Scheduler F C)
      → pending s ≤ n
      → Ends out_of_fuel (λ t. pending t ≤ n) (assign_each us s)
  unfolding assign_each
  assign_each-pending n [] s h = Ends-ok _ h
  assign_each-pending n (u ∷ us) s h =
      Ends-option (HashMap.get u s.connected_workers) (λ _. assign_each-pending n us s h)
        λ w _.
          Ends-option w.current_job
            (λ _.
              Ends-option (pop s.ready_execs) (λ _. Ends-ok _ h)
                λ p popped.
                  Ends-bind
                    (start_job-pending n u w p.0 (record s { ready_execs = p.1 })
                      (unfold pending in omega (arith, length-pop s.ready_execs p.1 p.0 popped)))
                    λ t _ q. assign_each-pending n us t q)
            (λ _ _. assign_each-pending n us s h)

  pub assign_jobs-pending :
      (n : ℕ) (s : Scheduler F C)
      → pending s ≤ n
      → Ends out_of_fuel (λ t. pending t ≤ n) (assign_jobs s)
  unfolding assign_jobs
  assign_jobs-pending n s h = assign_each-pending n (HashMap.keys s.connected_workers) s h

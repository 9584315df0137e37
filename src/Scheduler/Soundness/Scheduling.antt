-- ===== src/Scheduler/Soundness/Scheduling.antt =====
-- `schedule_cached`: the executions that the cache answers are completed.
use task_maker_rust.Base.{
  ℕ, zero, suc, ◌≡◌, refl, Bool, false, not, some, List, [], ◌∷◌, All, All-imp, length,
}
use task_maker_rust.Base.Tests.{nat_eq}
use task_maker_rust.Base.HashMap
use task_maker_rust.Base.HashMap.{HashMap}
use task_maker_rust.Dag.Execution.{ExecutionResult}
use task_maker_rust.Dag.Group.{ExecutionGroup, dependencies, outputs}
use task_maker_rust.Scheduler.Heap.{ReadyExec}
use task_maker_rust.Scheduler.State.{
  Scheduler, SchedulerClientData, Cache, CacheResult, miss, hit, panic,
}
use task_maker_rust.Scheduler.Completion.{
  Cached, Verdict, client_gone, not_cached, cached, Sorted, apply_answer, add_verdict, caching_off,
  is_cacheable, look_up_exec, look_up_all, schedule_cached_fuel, schedule_cached, file_success,
  exec_completed,
}
use task_maker_rust.Scheduler.Outcome.{
  Ends, Ends-ok, Ends-err, Ends-if, Ends-option, Ends-weaken, Ends-bind, Ends-found,
}
use task_maker_rust.Scheduler.Soundness.Invariant.{
  CacheInvariant, HasHandle, Executable, CanRun, CanRun-Keeps, IsSound, Keeps, Keeps-refl,
  Keeps-trans, clients-Keeps, Holds,
}
use task_maker_rust.Scheduler.Soundness.Update.{set_client-Keeps, same-Keeps}
use task_maker_rust.Scheduler.Soundness.Completing.{
  CacheLaws, complete_cached-Keeps, file_success_with-Keeps, exec_completed_with-Keeps,
}

module _ {F : Type 0} where
  abbrev IsAnswer : Cached F → Type 0
  IsAnswer c = All (HasHandle c.outputs) (outputs c.group)

  abbrev IsVerdict : Verdict F → Type 0
  IsVerdict (cached c) = IsAnswer c
  IsVerdict _ = Unit

module _ {F C : Type 0} (cache : Cache F C) ⦃inv : CacheInvariant C⦄ (laws : CacheLaws cache) where
  apply_answer-Keeps :
      (exec : ReadyExec) (client : SchedulerClientData F) (group : ExecutionGroup F)
      (s : Scheduler F C) (answer : CacheResult F) (c : C)
      → IsSound s
      → HashMap.get exec.client s.clients ≡ some client
      → cache.lookup s.cache group client.file_handles ≡ some (answer, c)
      → inv.IsValid c
      → Keeps s (apply_answer exec client group answer (record s { cache = c })).1
        × IsVerdict (apply_answer exec client group answer (record s { cache = c })).0
  unfolding apply_answer
  apply_answer-Keeps exec client group s miss c h here e valid =
      (same-Keeps s _ refl refl refl (λ v. valid) h, tt)
  apply_answer-Keeps exec client group s (hit result outs) c h here e valid =
      let looked = same-Keeps s (record s { cache = c }) refl refl refl (λ v. valid) h in
      let old = h.clients_sound exec.client client here in
      (
        Keeps-trans looked (
            set_client-Keeps exec.client client _ (record s { cache = c }) here
              (record { same_dag = refl; handles = λ f k. k })
              (record {
                inputs = old.inputs;
                waiting = λ g m k.
                    let w = old.waiting g m k in
                    record { group = w.group; known = w.known; available = w.available };
              })
              looked.sound),
        laws.lookup_outputs s.cache c group client.file_handles result outs h.cache_sound e,
      )

  look_up_exec-Keeps :
      (exec : ReadyExec) (s : Scheduler F C)
      → IsSound s
      → CanRun s.clients exec.client exec.group
      → Ends panic (λ p. Keeps s p.1 × IsVerdict p.0) (look_up_exec cache exec s)
  unfolding look_up_exec
  look_up_exec-Keeps exec s h run =
      Ends-option (HashMap.get exec.client s.clients) (λ _. Ends-ok _ (Keeps-refl s h, tt))
        λ client here.
          Ends-if (caching_off client.dag.config.cache_mode) (λ _. Ends-ok _ (Keeps-refl s h, tt))
            λ _.
              let x : Executable client exec.group = run client here in
              let (answer, e, valid) =
                laws.lookup_found s.cache x.group client.file_handles h.cache_sound x.available in
              Ends-found _ x.group x.known (
                Ends-if (not (is_cacheable x.group client.dag.config.cache_mode))
                  (λ _. Ends-ok _ (Keeps-refl s h, tt))
                  (λ _. Ends-found _ answer e (
                    Ends-ok _
                      (apply_answer-Keeps exec client x.group s answer.0 answer.1 h here e valid))))

  -- What `look_up_all` returns from `s`.
  abbrev SortedOf : Scheduler F C → Sorted F C → Type 0
  SortedOf s found =
      Keeps s found.state
      × All (λ e. CanRun found.state.clients e.client e.group) found.remaining
      × All IsAnswer found.answered

  add_verdict-SortedOf :
      (s : Scheduler F C) (exec : ReadyExec) (v : Verdict F) (found : Sorted F C)
      → CanRun s.clients exec.client exec.group
      → IsVerdict v
      → SortedOf s found
      → SortedOf s (add_verdict exec v found)
  unfolding add_verdict
  add_verdict-SortedOf s exec client_gone found run v h = h
  add_verdict-SortedOf s exec not_cached found run v h =
      (h.0, (CanRun-Keeps exec.client exec.group h.0 run, h.1), h.2)
  add_verdict-SortedOf s exec (cached c) found run v h = (h.0, h.1, (v, h.2))

  look_up_all-SortedOf :
      (execs : List ReadyExec) (s : Scheduler F C)
      → IsSound s
      → All (λ e. CanRun s.clients e.client e.group) execs
      → Ends panic (SortedOf s) (look_up_all cache execs s)
  unfolding look_up_all
  look_up_all-SortedOf [] s h run = Ends-ok _ (Keeps-refl s h, tt, tt)
  look_up_all-SortedOf (exec ∷ execs) s h run =
      Ends-bind (look_up_exec-Keeps exec s h run.0) λ p _ q.
        Ends-bind
          (look_up_all-SortedOf execs p.1 (q.0).sound
            (All-imp execs (λ e r. CanRun-Keeps e.client e.group q.0 r) run.1))
          λ found _ k.
            Ends-ok _
              (add_verdict-SortedOf s exec p.0 found run.0 q.1 (Keeps-trans q.0 k.0, k.1, k.2))

  schedule_cached_fuel-Keeps :
      (fuel : ℕ) (s : Scheduler F C)
      → IsSound s
      → Ends panic (Keeps s) (schedule_cached_fuel cache fuel s)
  unfolding schedule_cached_fuel
  schedule_cached_fuel-Keeps zero s h = Ends-err _ (λ e. cc)
  schedule_cached_fuel-Keeps (suc fuel) s h =
      Ends-bind (look_up_all-SortedOf s.ready_execs s h h.ready_sound) λ found _ k.
        let kept = k.0 in
        let sound = kept.sound in
        let sorted =
          clients-Keeps found.state (record (found.state) { ready_execs = found.remaining }) refl
            (record {
              clients_sound = sound.clients_sound;
              ready_sound = k.1;
              jobs_sound = sound.jobs_sound;
              cache_sound = sound.cache_sound;
            }) in
        Ends-weaken (λ t n. Keeps-trans kept (Keeps-trans sorted n))
          (complete_cached-Keeps cache laws (schedule_cached_fuel cache fuel)
            (schedule_cached_fuel-Keeps fuel) found.answered _ sorted.sound k.2)

  pub schedule_cached-Keeps :
      (s : Scheduler F C) → IsSound s → Ends panic (Keeps s) (schedule_cached cache s)
  unfolding schedule_cached
  schedule_cached-Keeps s h = schedule_cached_fuel-Keeps _ s h

  pub file_success-Keeps :
      (c file : ℕ) (s : Scheduler F C)
      → IsSound s
      → Holds s c (file ∷ [])
      → Ends panic (Keeps s) (file_success cache c file s)
  unfolding file_success
  file_success-Keeps c file s h holds =
      file_success_with-Keeps cache laws (schedule_cached cache) schedule_cached-Keeps c file s h
        holds

  pub exec_completed-Keeps :
      (c : ℕ) (group : ExecutionGroup F) (result : List (ExecutionResult F)) (outs : HashMap ℕ ℕ)
      (from_cache : Bool) (s : Scheduler F C)
      → IsSound s
      → All (HasHandle outs) (outputs group)
      → (from_cache ≡ false
          → Holds s c (dependencies group) × (length group.executions ≡ length result))
      → Ends panic (Keeps s) (exec_completed cache c group result outs from_cache s)
  unfolding exec_completed
  exec_completed-Keeps c group result outs from_cache s h all deps =
      exec_completed_with-Keeps cache laws (schedule_cached cache) schedule_cached-Keeps c group
        result outs from_cache s h all deps

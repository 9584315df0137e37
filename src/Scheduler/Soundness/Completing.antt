-- ===== src/Scheduler/Soundness/Completing.antt =====
-- `schedule_cached`, `exec_completed` and `file_success`.
use task_maker_rust.Base.{
  ℕ, ◌≡◌, refl, sym, ◌∙◌, Bool, true, false, not, ◌&&◌, some, List, [], ◌∷◌, All, All-imp, arith,
  inl, inr, subst, if◌then◌else◌, Result, length,
}
use mathlib.Core.Option.{some-injective}
use task_maker_rust.Base.Tests.{nat_eq}
use task_maker_rust.Base.HashMap
use task_maker_rust.Base.HashMap.{HashMap}
use task_maker_rust.Base.HashSet
use task_maker_rust.Base.HashSet.{HashSet}
use task_maker_rust.Dag.Execution.{ExecutionResult}
use task_maker_rust.Dag.Group.{ExecutionGroup, dependencies, outputs}
use task_maker_rust.Scheduler.State.{
  Scheduler, SchedulerClientData, Cache, CacheResult, hit, Error, panic, execution_done, notify,
  set_client,
}
use task_maker_rust.Scheduler.Files.{file_failed}
use task_maker_rust.Scheduler.Completion.{
  Cached, all_success, none_internal_error, store_outputs, record_outputs, cache_execution,
  file_success_with, exec_completed_with, complete_cached,
}
use task_maker_rust.Scheduler.Outcome.{
  Ends, Ends-ok, Ends-if, Ends-option, Ends-weaken, Ends-bind, Ends-for_each-All, Ends-found,
  Ends-present,
}
use task_maker_rust.Scheduler.Soundness.Invariant.{
  CacheInvariant, HasHandle, IsSound, Keeps, Keeps-refl, Keeps-trans, Holds, Holds-Keeps,
}
use task_maker_rust.Scheduler.Soundness.Update.{set_client-Keeps, same-Keeps, notify_if-Keeps}
use task_maker_rust.Scheduler.Frame.{notify_if-clients}
use task_maker_rust.Scheduler.Soundness.Failing.{file_failed-Keeps}
use task_maker_rust.Scheduler.Soundness.Ready.{mark_file-Keeps}
use task_maker_rust.Scheduler.Soundness.Running.{dep_keys-found, assign_jobs-Keeps}

-- What the scheduler relies on: a cache with valid content does not panic where the files that it
-- looks up have handles, and its content stays valid where a run with a result for each execution
-- is stored. An answer has all the outputs of the group.
pub record CacheLaws {F C : Type 0} (cache : Cache F C) ⦃inv : CacheInvariant C⦄ : Type 0 where
  pub lookup_found :
      (c : C) (group : ExecutionGroup F) (handles : HashMap ℕ ℕ)
      → inv.IsValid c
      → All (HasHandle handles) (dependencies group)
      → (r : CacheResult F × C) × (cache.lookup c group handles ≡ some r) × inv.IsValid r.1
  pub lookup_outputs :
      (c c' : C) (group : ExecutionGroup F) (handles : HashMap ℕ ℕ)
      (result : List (ExecutionResult F)) (outs : HashMap ℕ ℕ)
      → inv.IsValid c
      → cache.lookup c group handles ≡ some (hit result outs, c')
      → All (HasHandle outs) (outputs group)
  pub store_found :
      (c : C) (group : ExecutionGroup F) (handles : HashMap ℕ ℕ) (result : List (ExecutionResult F))
      → inv.IsValid c
      → All (HasHandle handles) (dependencies group)
      → All (HasHandle handles) (outputs group)
      → length group.executions ≡ length result
      → (c' : C) × (cache.store c group handles result ≡ some c') × inv.IsValid c'

store_outputs-old :
    (outs handles : HashMap ℕ ℕ) (f : ℕ)
    → HasHandle handles f
    → HasHandle (store_outputs outs handles) f
unfolding store_outputs
store_outputs-old [] handles f h = h
store_outputs-old ((file, key) ∷ rest) handles f h =
    store_outputs-old rest (HashMap.insert file key handles) f
      (HashMap.contains_key-insert file f key handles h)

store_outputs-new :
    (outs handles : HashMap ℕ ℕ) (f : ℕ)
    → HasHandle outs f
    → HasHandle (store_outputs outs handles) f
unfolding store_outputs HashMap.get
store_outputs-new [] handles f h = cc
store_outputs-new ((file, key) ∷ rest) handles f h = ground (
  arith,
  store_outputs-new rest (HashMap.insert file key handles) f,
  store_outputs-old rest (HashMap.insert file key handles) f,
  HashMap.get-insert file f key handles,
)

module _ {F C : Type 0} ⦃inv : CacheInvariant C⦄ where
  record_outputs-Keeps :
      (c : ℕ) (client : SchedulerClientData F) (group : ExecutionGroup F)
      (result : List (ExecutionResult F)) (outs : HashMap ℕ ℕ) (s : Scheduler F C)
      → IsSound s
      → HashMap.get c s.clients ≡ some client
      → All (HasHandle outs) (outputs group)
      → Keeps s (record_outputs c client group result outs s)
        × Holds (record_outputs c client group result outs s) c (outputs group)
  unfolding record_outputs set_client
  record_outputs-Keeps c client group result outs s h here all =
      let told =
        notify_if-Keeps (HashSet.contains group.uuid client.callbacks.executions) c
          (execution_done group.uuid result) (Keeps-refl s h) in
      let s1 =
        if HashSet.contains group.uuid client.callbacks.executions
        then notify c (execution_done group.uuid result) s
        else s in
      let here1 : HashMap.get c s1.clients ≡ some client =
        rw
          (notify_if-clients (HashSet.contains group.uuid client.callbacks.executions) c
            (execution_done group.uuid result) s)
          here in
      let kept = record client { file_handles = store_outputs outs client.file_handles } in
      let old = h.clients_sound c client here in
      (
        Keeps-trans told (
            set_client-Keeps c client kept s1 here1
              (record { same_dag = refl; handles = store_outputs-old outs client.file_handles })
              (record {
                inputs = old.inputs;
                waiting = λ g m e.
                    let w = old.waiting g m e in
                    record {
                      group = w.group;
                      known = w.known;
                      available =
                          All-imp (dependencies (w.group))
                            (λ f r. elim r [
                              | inl waited ↦ inl waited
                              | inr there ↦ inr (store_outputs-old outs client.file_handles f there)
                            ])
                            w.available;
                    };
              })
              told.sound),
        (
          kept,
          HashMap.get-insert_self c kept s1.clients,
          All-imp (outputs group) (λ f r. store_outputs-new outs client.file_handles f r) all,
        ),
      )

module _ {F C : Type 0} (cache : Cache F C) ⦃inv : CacheInvariant C⦄ (laws : CacheLaws cache) where
  cache_execution-Keeps :
      (c : ℕ) (client : SchedulerClientData F) (group : ExecutionGroup F) (outs : HashMap ℕ ℕ)
      (result : List (ExecutionResult F)) (s : Scheduler F C)
      → IsSound s
      → HashMap.get c s.clients ≡ some client
      → All (HasHandle client.file_handles) (dependencies group)
      → All (HasHandle client.file_handles) (outputs group)
      → All (HasHandle outs) (outputs group)
      → length group.executions ≡ length result
      → Ends panic (Keeps s) (cache_execution cache c group outs result s)
  unfolding cache_execution
  cache_execution-Keeps c client group outs result s h here deps handles all each =
      let (stored, e, valid) =
        laws.store_found s.cache group client.file_handles result h.cache_sound deps handles each in
      Ends-present _ _ client here (
        Ends-bind (dep_keys-found client.file_handles (dependencies group) deps) λ _ _ _.
          Ends-bind (dep_keys-found outs (outputs group) all) λ _ _ _.
            Ends-found _ stored e (Ends-ok _ (same-Keeps s _ refl refl refl (λ v. valid) h)))

  abbrev pub ScheduleKeeps : (Scheduler F C → Result Error (Scheduler F C)) → Type 0
  ScheduleKeeps schedule = (s : Scheduler F C) → IsSound s → Ends panic (Keeps s) (schedule s)

  module _ (schedule : Scheduler F C → Result Error (Scheduler F C))
      (keeps : ScheduleKeeps schedule) where
    pub file_success_with-Keeps :
        (c file : ℕ) (s : Scheduler F C)
        → IsSound s
        → Holds s c (file ∷ [])
        → Ends panic (Keeps s) (file_success_with cache schedule c file s)
    unfolding file_success_with
    file_success_with-Keeps c file s h (client, here, handle) =
        Ends-bind
          (mark_file-Keeps c file s h (λ other e.
            subst (λ (x : SchedulerClientData F). HasHandle x.file_handles file)
              (some-injective _ _ (sym here ∙ e)) handle.0))
          λ p _ k.
            Ends-if p.0
              (λ _. Ends-bind (keeps p.1 k.sound) λ t _ n.
                Ends-weaken (λ u m. Keeps-trans k (Keeps-trans n m)) (assign_jobs-Keeps t n.sound))
              (λ _. Ends-ok _ k)

    settle-Keeps :
        (b : Bool) (c file : ℕ) (s : Scheduler F C)
        → IsSound s
        → Holds s c (file ∷ [])
        → Ends panic
            (Keeps s)
            ((if b then file_success_with cache schedule c else file_failed c) file s)
    settle-Keeps true c file s h holds = file_success_with-Keeps c file s h holds
    settle-Keeps false c file s h holds = file_failed-Keeps c file s h

    pub exec_completed_with-Keeps :
        (c : ℕ) (group : ExecutionGroup F) (result : List (ExecutionResult F)) (outs : HashMap ℕ ℕ)
        (from_cache : Bool) (s : Scheduler F C)
        → IsSound s
        → All (HasHandle outs) (outputs group)
        → (from_cache ≡ false
            → Holds s c (dependencies group) × (length group.executions ≡ length result))
        → Ends panic (Keeps s) (exec_completed_with cache schedule c group result outs from_cache s)
    unfolding exec_completed_with
    exec_completed_with-Keeps c group result outs from_cache s h all deps =
        Ends-option (HashMap.get c s.clients) (λ _. Ends-ok _ (Keeps-refl s h))
          λ client here.
            let (noted, (kept, there, handles)) =
              record_outputs-Keeps c client group result outs s h here all in
            let s1 = record_outputs c client group result outs s in
            Ends-bind {P = Keeps s1}
              (Ends-if (not from_cache && none_internal_error result)
                (λ e.
                  let (later, there', available) =
                    Holds-Keeps c (dependencies group) noted (deps (ground arith)).0 in
                  cache_execution-Keeps c kept group outs result s1 noted.sound there
                    (subst
                      (λ (x : SchedulerClientData F).
                        All (HasHandle x.file_handles) (dependencies group))
                      (some-injective _ _ (sym there' ∙ there)) available)
                    handles all (deps (ground arith)).1)
                (λ _. Ends-ok _ (Keeps-refl s1 noted.sound)))
              λ s2 _ k2.
                Ends-bind
                  (Ends-for_each-All (Keeps s1) (outputs group)
                    (λ file t handle k.
                      Ends-weaken (λ u n. Keeps-trans k n)
                        (settle-Keeps (all_success result) c file t k.sound
                          (Holds-Keeps c (file ∷ []) k (kept, there, (handle, tt)))))
                    handles k2)
                  λ s3 _ k3.
                    Ends-weaken (λ u n. Keeps-trans noted (Keeps-trans k3 n)) (keeps s3 k3.sound)

    pub complete_cached-Keeps :
        (answered : List (Cached F)) (s : Scheduler F C)
        → IsSound s
        → All (λ c. All (HasHandle c.outputs) (outputs c.group)) answered
        → Ends panic (Keeps s) (complete_cached cache schedule answered s)
    unfolding complete_cached
    complete_cached-Keeps answered s h all =
        Ends-for_each-All (Keeps s) answered
          (λ c t outs k.
            Ends-weaken (λ u n. Keeps-trans k n)
              (exec_completed_with-Keeps c.client c.group c.result c.outputs true t k.sound outs
                (λ e. cc)))
          all (Keeps-refl s h)

-- ===== src/Scheduler/Termination/Cached.antt =====
-- `schedule_cached` of scheduler.rs, and the number of groups left where it calls itself.
use task_maker_rust.Base.{
  ℕ, zero, suc, ◌+◌, ◌≤◌, ◌<◌, ◌≡◌, refl, ◌∙◌, Bool, true, false, some, List, [], ◌∷◌, length,
  arith, if◌then◌else◌, Result, not, ◌&&◌,
}
use task_maker_rust.Base.Tests.{nat_eq}
use task_maker_rust.Base.HashMap
use task_maker_rust.Base.HashMap.{HashMap}
use task_maker_rust.Base.HashSet
use task_maker_rust.Dag.Execution.{ExecutionResult}
use task_maker_rust.Dag.Group.{ExecutionGroup, dependencies, outputs}
use task_maker_rust.Scheduler.Heap.{ReadyExec}
use task_maker_rust.Scheduler.State.{
  Scheduler, SchedulerClientData, Cache, CacheResult, miss, hit, Error, out_of_fuel, notify,
  set_client,
}
use task_maker_rust.Scheduler.Files.{waiting_groups, for_each, file_failed}
use task_maker_rust.Scheduler.Completion.{
  pending, Cached, Verdict, client_gone, not_cached, cached, Sorted, apply_answer, add_verdict,
  caching_off, is_cacheable, all_success, none_internal_error, store_outputs, record_outputs,
  cache_execution, file_success_with, exec_completed_with, complete_cached, look_up_exec,
  look_up_all, schedule_cached_fuel, schedule_cached, file_success, exec_completed,
}
use task_maker_rust.Scheduler.Outcome.{
  Ends, Ends-ok, Ends-if, Ends-option, Ends-weaken, Ends-bind, Ends-for_each, Ends-or_panic,
}
use task_maker_rust.Scheduler.Termination.Count.{waiting_groups-insert}
use task_maker_rust.Scheduler.Termination.Loops.{
  dep_keys-Ends, Within, file_failed-Within, mark_file-pending, assign_jobs-pending,
}

module _ {F C : Type 0} (cache : Cache F C) where
  file_failed-pending :
      (n c file : ℕ) (s : Scheduler F C)
      → pending s ≤ n
      → Ends out_of_fuel (λ t. pending t ≤ n) (file_failed c file s)
  unfolding pending
  file_failed-pending n c file s h =
      let w : ℕ = waiting_groups s.clients in
      let r : ℕ = length s.ready_execs in
      Ends-weaken {P = Within w r} (λ t q. omega arith)
        (file_failed-Within w r c file s (omega arith, omega arith))

  pending-record_outputs :
      (c : ℕ) (client : SchedulerClientData F) (group : ExecutionGroup F)
      (result : List (ExecutionResult F)) (outs : HashMap ℕ ℕ) (s : Scheduler F C)
      → HashMap.get c s.clients ≡ some client
      → pending (record_outputs c client group result outs s) ≡ pending s
  unfolding record_outputs pending set_client notify
  pending-record_outputs c client group result outs s here =
      let kept = record client { file_handles = store_outputs outs client.file_handles } in
      ground (arith, waiting_groups-insert c client kept s.clients here)

  cache_execution-pending :
      (n c : ℕ) (group : ExecutionGroup F) (outs : HashMap ℕ ℕ) (result : List (ExecutionResult F))
      (s : Scheduler F C)
      → pending s ≤ n
      → Ends out_of_fuel (λ t. pending t ≤ n) (cache_execution cache c group outs result s)
  unfolding cache_execution pending
  cache_execution-pending n c group outs result s h =
      Ends-option (HashMap.get c s.clients) (λ _. Ends-ok _ h)
        λ client _. Ends-bind (dep_keys-Ends client.file_handles (dependencies group)) λ _ _ _.
          Ends-bind (dep_keys-Ends outs (outputs group))
            λ _ _ _. Ends-bind (Ends-or_panic _ (λ _ e. cc)) λ stored _ _. Ends-ok _ h

  -- What is needed of the recursive calls of `schedule_cached`.
  abbrev Shrinks : ℕ → (Scheduler F C → Result Error (Scheduler F C)) → Type 0
  Shrinks fuel schedule =
      (n : ℕ) (s : Scheduler F C)
      → n < fuel
      → pending s ≤ n
      → Ends out_of_fuel (λ t. pending t ≤ n) (schedule s)

  module _ (schedule : Scheduler F C → Result Error (Scheduler F C)) (fuel : ℕ)
      (shrinks : Shrinks fuel schedule) where
    file_success_with-pending :
        (n c file : ℕ) (s : Scheduler F C)
        → n < fuel
        → pending s ≤ n
        → Ends out_of_fuel (λ t. pending t ≤ n) (file_success_with cache schedule c file s)
    unfolding file_success_with
    file_success_with-pending n c file s less h =
        Ends-bind (mark_file-pending n c file s h) λ p _ q.
          Ends-if p.0 (λ _. Ends-bind (shrinks n p.1 less q) λ t _ k. assign_jobs-pending n t k)
            (λ _. Ends-ok _ q)

    exec_completed_with-pending :
        (n c : ℕ) (group : ExecutionGroup F) (result : List (ExecutionResult F))
        (outs : HashMap ℕ ℕ) (from_cache : Bool) (s : Scheduler F C)
        → n < fuel
        → pending s ≤ n
        → Ends out_of_fuel
            (λ t. pending t ≤ n)
            (exec_completed_with cache schedule c group result outs from_cache s)
    unfolding exec_completed_with
    exec_completed_with-pending n c group result outs from_cache s less h =
        Ends-option (HashMap.get c s.clients) (λ _. Ends-ok _ h)
          λ client here.
            let noted : pending (record_outputs c client group result outs s) ≤ n =
              rw (pending-record_outputs c client group result outs s here) h in
            Ends-bind
              (Ends-if (not from_cache && none_internal_error result)
                (λ _. cache_execution-pending n c group outs result _ noted) (λ _. Ends-ok _ noted))
              λ s2 _ q.
                Ends-bind
                  (Ends-for_each (λ t. pending t ≤ n) (outputs group)
                    (λ file t k. settle (all_success result) n c file t less k) q)
                  λ s3 _ k. shrinks n s3 less k
      where
        settle :
            (b : Bool) (n c file : ℕ) (t : Scheduler F C)
            → n < fuel
            → pending t ≤ n
            → Ends out_of_fuel
                (λ u. pending u ≤ n)
                ((if b then file_success_with cache schedule c else file_failed c) file t)
        settle true n c file t less k = file_success_with-pending n c file t less k
        settle false n c file t less k = file_failed-pending n c file t k

    complete_cached-pending :
        (n : ℕ) (answered : List (Cached F)) (s : Scheduler F C)
        → n < fuel
        → pending s ≤ n
        → Ends out_of_fuel (λ t. pending t ≤ n) (complete_cached cache schedule answered s)
    unfolding complete_cached
    complete_cached-pending n answered s less h =
        Ends-for_each (λ t. pending t ≤ n) answered
          (λ c t k. exec_completed_with-pending n c.client c.group c.result c.outputs true t less k)
          h

  -- A look at the cache leaves the waiting groups.
  abbrev SameWaiting : ℕ → Scheduler F C → Type 0
  SameWaiting w s = waiting_groups s.clients ≡ w

  waiting_groups-apply_answer :
      (exec : ReadyExec) (client : SchedulerClientData F) (group : ExecutionGroup F)
      (answer : CacheResult F) (s : Scheduler F C)
      → HashMap.get exec.client s.clients ≡ some client
      → waiting_groups ((apply_answer exec client group answer s).1).clients
        ≡ waiting_groups s.clients
  unfolding apply_answer set_client
  waiting_groups-apply_answer exec client group miss s here = refl
  waiting_groups-apply_answer exec client group (hit result outs) s here =
      let done = record client { ready_groups = HashSet.remove group.uuid client.ready_groups } in
      omega (arith, waiting_groups-insert exec.client client done s.clients here)

  look_up_exec-waiting :
      (w : ℕ) (exec : ReadyExec) (s : Scheduler F C)
      → SameWaiting w s
      → Ends out_of_fuel (λ p. SameWaiting w p.1) (look_up_exec cache exec s)
  unfolding look_up_exec
  look_up_exec-waiting w exec s h =
      Ends-option (HashMap.get exec.client s.clients) (λ _. Ends-ok _ h)
        λ client here.
          Ends-if (caching_off client.dag.config.cache_mode) (λ _. Ends-ok _ h)
            λ _. Ends-bind (Ends-or_panic _ (λ _ e. cc)) λ group _ _.
              Ends-if (not (is_cacheable group client.dag.config.cache_mode)) (λ _. Ends-ok _ h)
                λ _. Ends-bind (Ends-or_panic _ (λ _ e. cc)) λ answer _ _. Ends-ok _ (
                  waiting_groups-apply_answer exec client group answer.0
                    (record s { cache = answer.1 }) here
                  ∙ h)

  abbrev SortedWithin : ℕ → ℕ → Sorted F C → Type 0
  SortedWithin w n found =
      SameWaiting w found.state × (length found.remaining + length found.answered ≤ n)

  add_verdict-SortedWithin :
      (w n : ℕ) (exec : ReadyExec) (v : Verdict F) (found : Sorted F C)
      → SortedWithin w n found
      → SortedWithin w (suc n) (add_verdict exec v found)
  unfolding add_verdict
  add_verdict-SortedWithin w n exec client_gone found h = (h.0, omega arith)
  add_verdict-SortedWithin w n exec not_cached found h = (h.0, omega arith)
  add_verdict-SortedWithin w n exec (cached c) found h = (h.0, omega arith)

  look_up_all-SortedWithin :
      (w : ℕ) (execs : List ReadyExec) (s : Scheduler F C)
      → SameWaiting w s
      → Ends out_of_fuel (SortedWithin w (length execs)) (look_up_all cache execs s)
  unfolding look_up_all
  look_up_all-SortedWithin w [] s h = Ends-ok _ (h, omega arith)
  look_up_all-SortedWithin w (exec ∷ execs) s h =
      Ends-bind (look_up_exec-waiting w exec s h) λ p _ q.
        Ends-bind (look_up_all-SortedWithin w execs p.1 q)
          λ found _ k. Ends-ok _ (add_verdict-SortedWithin w (length execs) exec p.0 found k)

  -- With nothing answered there is no call; otherwise the queue is shorter.
  complete_found-pending :
      (fuel n : ℕ) (schedule : Scheduler F C → Result Error (Scheduler F C))
      (answered : List (Cached F)) (s : Scheduler F C)
      → Shrinks fuel schedule
      → n < suc fuel
      → pending s + length answered ≤ n
      → Ends out_of_fuel (λ t. pending t ≤ n) (complete_cached cache schedule answered s)
  unfolding complete_cached for_each
  complete_found-pending fuel n schedule [] s shrinks less h = Ends-ok _ (omega arith)
  complete_found-pending fuel n schedule (c ∷ cs) s shrinks less h =
      Ends-weaken {P = λ t. pending t ≤ pending s} (λ t q. omega arith)
        (complete_cached-pending schedule fuel shrinks (pending s) (c ∷ cs) s (omega arith)
          (omega arith))

  schedule_cached_fuel-pending : (fuel : ℕ) → Shrinks fuel (schedule_cached_fuel cache fuel)
  unfolding schedule_cached_fuel
  schedule_cached_fuel-pending zero n s less h = elim less [ ]
  schedule_cached_fuel-pending (suc fuel) n s less h =
      Ends-bind (look_up_all-SortedWithin (waiting_groups s.clients) s.ready_execs s refl)
        λ found _ k.
          complete_found-pending fuel n (schedule_cached_fuel cache fuel) found.answered
            (record (found.state) { ready_execs = found.remaining })
            (schedule_cached_fuel-pending fuel) less (unfold pending in omega arith)

  pub schedule_cached-pending :
      (n : ℕ) (s : Scheduler F C)
      → pending s ≤ n
      → Ends out_of_fuel (λ t. pending t ≤ n) (schedule_cached cache s)
  unfolding schedule_cached
  schedule_cached-pending n s h =
      Ends-weaken {P = λ t. pending t ≤ pending s} (λ t q. omega arith)
        (schedule_cached_fuel-pending (suc (pending s)) (pending s) s (omega arith) (omega arith))

  pub file_success-pending :
      (n c file : ℕ) (s : Scheduler F C)
      → pending s ≤ n
      → Ends out_of_fuel (λ t. pending t ≤ n) (file_success cache c file s)
  unfolding file_success
  file_success-pending n c file s h =
      file_success_with-pending (schedule_cached cache) (suc n)
        (λ m t _ k. schedule_cached-pending m t k) n c file s (omega arith) h

  pub exec_completed-pending :
      (n c : ℕ) (group : ExecutionGroup F) (result : List (ExecutionResult F)) (outs : HashMap ℕ ℕ)
      (from_cache : Bool) (s : Scheduler F C)
      → pending s ≤ n
      → Ends out_of_fuel
          (λ t. pending t ≤ n)
          (exec_completed cache c group result outs from_cache s)
  unfolding exec_completed
  exec_completed-pending n c group result outs from_cache s h =
      exec_completed_with-pending (schedule_cached cache) (suc n)
        (λ m t _ k. schedule_cached-pending m t k) n c group result outs from_cache s (omega arith)
        h

-- ===== src/Scheduler/Completion.antt =====
-- `exec_completed`, `cache_execution` and `schedule_cached`: what follows the end of an
-- execution, on a worker or by the cache.
use task_maker_rust.Base.{
  ℕ, zero, suc, ◌+◌, String, Bool, true, false, Option, none, some, List, [], ◌∷◌, if◌then◌else◌,
  Result, ok, err, ◌>>=◌, length, all, ◌&&◌, not,
}
use task_maker_rust.Base.Tests.{nat_eq, string_eq}
use task_maker_rust.Base.HashMap
use task_maker_rust.Base.HashMap.{HashMap}
use task_maker_rust.Base.HashSet
use task_maker_rust.Dag.Execution.{ExecutionResult, is_success, is_internal_error}
use task_maker_rust.Dag.Group.{ExecutionGroup, CacheMode, nothing, except, dependencies, outputs}
use task_maker_rust.Scheduler.Heap.{ReadyExec}
use task_maker_rust.Scheduler.State.{
  Error, out_of_fuel, SchedulerClientData, Scheduler, Cache, CacheResult, miss, hit, execution_done,
  notify, set_client, or_panic,
}
use task_maker_rust.Scheduler.Files.{for_each, mark_file, file_failed, waiting_groups}
use task_maker_rust.Scheduler.Jobs.{dep_keys, assign_jobs}

-- Whether the tag of a group is not excluded from the cache.
unfoldable pub tag_allowed : CacheMode → Option String → Bool
tag_allowed (except tags) (some tag) = not (HashSet.contains tag tags)
tag_allowed _ _ = true

unfoldable pub caching_off : CacheMode → Bool
caching_off nothing = true
caching_off _ = false

unfoldable pub store_outputs : HashMap ℕ ℕ → HashMap ℕ ℕ → HashMap ℕ ℕ
store_outputs [] handles = handles
store_outputs ((file, handle) ∷ rest) handles =
    store_outputs rest (HashMap.insert file handle handles)

module _ {F : Type 0} where
  unfoldable pub is_cacheable : ExecutionGroup F → CacheMode → Bool
  unfolding tag_allowed
  is_cacheable group mode = tag_allowed mode group.tag

  unfoldable pub all_success : List (ExecutionResult F) → Bool
  all_success result = all (λ r. is_success r.status) result

  unfoldable pub none_internal_error : List (ExecutionResult F) → Bool
  none_internal_error result = all (λ r. not (is_internal_error r.status)) result

-- A ready execution that the cache answers.
pub record Cached (F : Type 0) : Type 0 where
  pub client : ℕ
  pub group : ExecutionGroup F
  pub result : List (ExecutionResult F)
  pub outputs : HashMap ℕ ℕ

-- What `schedule_cached` finds out about one ready execution.
pub data Verdict (F : Type 0) : Type 0 where
  client_gone not_cached : Verdict F
  cached : Cached F → Verdict F

-- The executions that are not in the cache, and those that are.
pub record Sorted (F C : Type 0) : Type 0 where
  pub remaining : List ReadyExec
  pub answered : List (Cached F)
  pub state : Scheduler F C

module _ {F C : Type 0} where
  -- The handles of the outputs are kept, and the client is told.
  unfoldable pub record_outputs :
      ℕ
      → SchedulerClientData F
      → ExecutionGroup F
      → List (ExecutionResult F)
      → HashMap ℕ ℕ
      → Scheduler F C
      → Scheduler F C
  record_outputs client_uuid client group result outs s =
      let s1 =
        if HashSet.contains group.uuid client.callbacks.executions
        then notify client_uuid (execution_done group.uuid result) s
        else s in
      set_client client_uuid
        (record client { file_handles = store_outputs outs client.file_handles }) s1

  -- The groups that are not completed: those that wait for files, and those in the queue.
  unfoldable pub pending : Scheduler F C → ℕ
  pending s = waiting_groups s.clients + length s.ready_execs

  -- What a cache answer means: on a hit the group is no longer ready.
  unfoldable pub apply_answer :
      ReadyExec
      → SchedulerClientData F
      → ExecutionGroup F
      → CacheResult F
      → Scheduler F C
      → Verdict F × Scheduler F C
  apply_answer exec client group miss s = (not_cached, s)
  apply_answer exec client group (hit result outs) s = (
    cached (record { client = exec.client; group = group; result = result; outputs = outs }),
    set_client exec.client
        (record client { ready_groups = HashSet.remove group.uuid client.ready_groups }) s,
  )

  unfoldable pub add_verdict : ReadyExec → Verdict F → Sorted F C → Sorted F C
  add_verdict exec client_gone r = r
  add_verdict exec not_cached r = record r { remaining = exec ∷ r.remaining }
  add_verdict exec (cached c) r = record r { answered = c ∷ r.answered }

module _ {F C : Type 0} (cache : Cache F C) where
  unfoldable pub cache_execution :
      ℕ
      → ExecutionGroup F
      → HashMap ℕ ℕ
      → List (ExecutionResult F)
      → Scheduler F C
      → Result Error (Scheduler F C)
  cache_execution client_uuid group outs result s = elim (HashMap.get client_uuid s.clients) [
    | none ↦ ok s
    | some client ↦ do
      _ ← dep_keys client.file_handles (dependencies group)
      _ ← dep_keys outs (outputs group)
      stored ← or_panic (cache.store s.cache group client.file_handles result)
      ok (record s { cache = stored })
  ]

  -- The functions below call `schedule_cached`, which calls them: it is their argument.
  module _ (schedule : Scheduler F C → Result Error (Scheduler F C)) where
    unfoldable pub file_success_with : ℕ → ℕ → Scheduler F C → Result Error (Scheduler F C)
    file_success_with client_uuid file s = do
      (known, s1) ← mark_file client_uuid file s
      if known then schedule s1 >>= assign_jobs else ok s1

    unfoldable pub exec_completed_with :
        ℕ
        → ExecutionGroup F
        → List (ExecutionResult F)
        → HashMap ℕ ℕ
        → Bool
        → Scheduler F C
        → Result Error (Scheduler F C)
    exec_completed_with client_uuid group result outs from_cache s =
        elim (HashMap.get client_uuid s.clients) [
          | none ↦ ok s
          | some client ↦ do
            let s1 = record_outputs client_uuid client group result outs s
            s2 ←
                (if not from_cache && none_internal_error result
                  then cache_execution client_uuid group outs result s1
                  else ok s1)
            s3 ←
                for_each
                  (if all_success result
                    then file_success_with client_uuid
                    else file_failed client_uuid)
                  (outputs group) s2
            schedule s3
        ]

    unfoldable pub complete_cached : List (Cached F) → Scheduler F C → Result Error (Scheduler F C)
    complete_cached answered s =
        for_each (λ c. exec_completed_with c.client c.group c.result c.outputs true) answered s

  -- One round of the loop of `schedule_cached`.
  unfoldable pub look_up_exec : ReadyExec → Scheduler F C → Result Error (Verdict F × Scheduler F C)
  look_up_exec exec s = elim (HashMap.get exec.client s.clients) [
    | none ↦ ok (client_gone, s)
    | some client ↦
        if caching_off client.dag.config.cache_mode
        then ok (not_cached, s)
        else (or_panic (HashMap.get exec.group client.dag.execution_groups) >>= λ group.
            if not (is_cacheable group client.dag.config.cache_mode)
            then ok (not_cached, s)
            else (or_panic (cache.lookup s.cache group client.file_handles) >>= λ answer.
                ok (apply_answer exec client group answer.0 (record s { cache = answer.1 }))))
  ]

  unfoldable pub look_up_all : List ReadyExec → Scheduler F C → Result Error (Sorted F C)
  look_up_all [] s = ok (record { remaining = []; answered = []; state = s })
  look_up_all (exec ∷ execs) s = do
    (verdict, s1) ← look_up_exec exec s
    rest ← look_up_all execs s1
    ok (add_verdict exec verdict rest)

  unfoldable pub schedule_cached_fuel : ℕ → Scheduler F C → Result Error (Scheduler F C)
  schedule_cached_fuel zero s = err out_of_fuel
  schedule_cached_fuel (suc fuel) s = do
    found ← look_up_all s.ready_execs s
    complete_cached (schedule_cached_fuel fuel) found.answered
        (record (found.state) { ready_execs = found.remaining })

  unfoldable pub schedule_cached : Scheduler F C → Result Error (Scheduler F C)
  schedule_cached s = schedule_cached_fuel (suc (pending s)) s

  unfoldable pub file_success : ℕ → ℕ → Scheduler F C → Result Error (Scheduler F C)
  file_success = file_success_with schedule_cached

  unfoldable pub exec_completed :
      ℕ
      → ExecutionGroup F
      → List (ExecutionResult F)
      → HashMap ℕ ℕ
      → Bool
      → Scheduler F C
      → Result Error (Scheduler F C)
  exec_completed = exec_completed_with schedule_cached

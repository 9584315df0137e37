-- ===== src/Scheduler/Files.antt =====
-- `send_file`, `file_failed` and the part of `file_success` before the scheduling.
use task_maker_rust.Base.{
  ℕ, zero, suc, ◌+◌, Bool, true, false, Option, none, some, List, [], ◌∷◌, ◌++◌, if◌then◌else◌,
  Result, ok, err, ◌>>=◌, is_empty, length,
}
use task_maker_rust.Base.Tests.{nat_eq}
use task_maker_rust.Base.HashMap
use task_maker_rust.Base.HashMap.{HashMap}
use task_maker_rust.Base.HashSet
use task_maker_rust.Base.HashSet.{HashSet}
use task_maker_rust.Dag.Execution.{high_priority}
use task_maker_rust.Dag.Group.{outputs}
use task_maker_rust.Scheduler.State.{
  Error, out_of_fuel, SchedulerClientData, Scheduler, ExecutorMessage, file_ready,
  execution_skipped, notify, set_client, or_panic,
}

-- A `for` loop whose body can fail.
unfoldable pub for_each {ℓ} :
    {A : Type ℓ} {S : Type 0} → (A → S → Result Error S) → List A → S → Result Error S
for_each body [] s = ok s
for_each body (x ∷ xs) s = body x s >>= for_each body xs

module _ {F : Type 0} where
  -- The message of `send_file`, where the client watches the file and its handle is known.
  unfoldable pub file_message : SchedulerClientData F → ℕ → Bool → Option (ExecutorMessage F)
  file_message client file successful =
      if HashSet.contains file client.callbacks.files
      then (elim (HashMap.get file client.file_handles) [
        | none ↦ none
        | some handle ↦ some (
            file_ready file handle successful (HashSet.contains file client.callbacks.urgent_files))
      ])
      else none

  -- The number of groups that wait for files, over all clients.
  unfoldable pub waiting_groups : HashMap ℕ (SchedulerClientData F) → ℕ
  waiting_groups [] = 0
  waiting_groups ((_, client) ∷ clients) = length client.missing_deps + waiting_groups clients

module _ {F C : Type 0} where
  unfoldable pub send_file : ℕ → ℕ → Bool → Scheduler F C → Scheduler F C
  unfolding file_message
  send_file client_uuid file successful s = elim (HashMap.get client_uuid s.clients) [
    | none ↦ s
    | some client ↦ elim (file_message client file successful) [
      | none ↦ s
      | some mex ↦ notify client_uuid mex s
    ]
  ]

  -- One round of the loop of `file_failed`: the group is skipped, unless it was before. The
  -- outputs that fail with it are added at the end.
  unfoldable pub skip_group : ℕ → ℕ → Scheduler F C × List ℕ → Result Error (Scheduler F C × List ℕ)
  skip_group client_uuid group_uuid (s, failed_files) = do
    client ← or_panic (HashMap.get client_uuid s.clients)
    elim (HashMap.get group_uuid client.missing_deps) [
      | none ↦ ok (s, failed_files)
      | some _ ↦ do
        let client' = record client { missing_deps = HashMap.remove group_uuid client.missing_deps }
        group ← or_panic (HashMap.get group_uuid client.dag.execution_groups)
        let s' = set_client client_uuid client' s
        ok (
          if HashSet.contains group.uuid client.callbacks.executions
              then notify client_uuid (execution_skipped group.uuid) s'
              else s',
          failed_files ++ outputs group,
        )
    ]

  -- `file_failed`, on fuel: each level of the recursion has skipped a group.
  unfoldable pub file_failed_fuel : ℕ → ℕ → ℕ → Scheduler F C → Result Error (Scheduler F C)
  file_failed_fuel zero client_uuid file s = err out_of_fuel
  file_failed_fuel (suc fuel) client_uuid file s =
      let s' = send_file client_uuid file false s in
      elim (HashMap.get client_uuid s'.clients) [
        | none ↦ ok s'
        | some client ↦ elim (HashMap.get file client.input_of) [
          | none ↦ ok s'
          | some groups ↦ do
            (s'', failed_files) ← for_each (skip_group client_uuid) groups (s', [])
            for_each (file_failed_fuel fuel client_uuid) failed_files s''
        ]
      ]

  unfoldable pub file_failed : ℕ → ℕ → Scheduler F C → Result Error (Scheduler F C)
  file_failed client_uuid file s =
      file_failed_fuel (suc (waiting_groups s.clients)) client_uuid file s

  -- One round of the loop of `file_success`: the file is no longer missing from the group, which
  -- becomes ready if it was the last.
  unfoldable pub mark_group : ℕ → ℕ → ℕ → Scheduler F C → Result Error (Scheduler F C)
  mark_group client_uuid file group_uuid s = do
    client ← or_panic (HashMap.get client_uuid s.clients)
    group ← or_panic (HashMap.get group_uuid client.dag.execution_groups)
    elim (HashMap.get group_uuid client.missing_deps) [
      | none ↦ ok s
      | some files ↦
          let files' = HashSet.remove file files in
          if is_empty files'
          then ok (
              set_client client_uuid
                (record client {
                  missing_deps = HashMap.remove group_uuid client.missing_deps;
                  ready_groups = HashSet.insert group_uuid client.ready_groups;
                })
                (record s {
                  ready_execs =
                      record {
                        dag_priority = high_priority;
                        priority = group.priority;
                        group = group_uuid;
                        client = client_uuid;
                      }
                      ∷ s.ready_execs;
                }))
          else ok (
              set_client client_uuid
                (record client {
                  missing_deps = HashMap.insert group_uuid files' client.missing_deps;
                })
                s)
    ]

  -- `file_success`, up to the calls of `schedule_cached` and `assign_jobs`. The result says
  -- whether these follow.
  unfoldable pub mark_file : ℕ → ℕ → Scheduler F C → Result Error (Bool × Scheduler F C)
  mark_file client_uuid file s =
      let s' = send_file client_uuid file true s in
      elim (HashMap.get client_uuid s'.clients) [
        | none ↦ ok (false, s')
        | some client ↦ elim (HashMap.get file client.input_of) [
          | none ↦ ok (false, s')
          | some groups ↦ do s'' ← for_each (mark_group client_uuid file) groups s'; ok (true, s'')
        ]
      ]

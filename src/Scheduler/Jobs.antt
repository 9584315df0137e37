-- ===== src/Scheduler/Jobs.antt =====
-- `assign_jobs`: the free workers take the best ready executions.
use task_maker_rust.Base.{ℕ, none, some, List, [], ◌∷◌, if◌then◌else◌, Result, ok, ◌>>=◌}
use task_maker_rust.Base.Tests.{nat_eq}
use task_maker_rust.Base.HashMap
use task_maker_rust.Base.HashMap.{HashMap}
use task_maker_rust.Base.HashSet
use task_maker_rust.Dag.Group.{dependencies}
use task_maker_rust.Scheduler.Heap.{ReadyExec, pop}
use task_maker_rust.Scheduler.State.{
  Error, Scheduler, ConnectedWorker, execution_started, worker_job, send_worker_manager, notify,
  set_client, or_panic,
}

-- The keys of the files that a job reads. An unknown file is a panic.
unfoldable pub dep_keys : HashMap ℕ ℕ → List ℕ → Result Error (HashMap ℕ ℕ)
dep_keys handles [] = ok []
dep_keys handles (file ∷ files) = do
  handle ← or_panic (HashMap.get file handles)
  keys ← dep_keys handles files
  ok (HashMap.insert file handle keys)

module _ {F C : Type 0} where
  -- The worker is marked as busy, and the job is sent to it if its client is still there.
  unfoldable pub start_job :
      ℕ → ConnectedWorker → ReadyExec → Scheduler F C → Result Error (Scheduler F C)
  start_job worker_uuid worker exec s =
      let busy = record worker {
        current_job = some (record { client = exec.client; group = exec.group; start = s.now });
      } in
      let s1 = record s {
        connected_workers = HashMap.insert worker_uuid busy s.connected_workers;
      } in
      elim (HashMap.get exec.client s.clients) [
        | none ↦ ok s1
        | some client ↦ do
          let client' = record client {
            ready_groups = HashSet.remove exec.group client.ready_groups;
            running_groups = HashSet.insert exec.group client.running_groups;
          }
          group ← or_panic (HashMap.get exec.group client.dag.execution_groups)
          keys ← dep_keys client.file_handles (dependencies group)
          s2 ←
              send_worker_manager
                (worker_job worker_uuid (record { group = group; dep_keys = keys }))
                (set_client exec.client client' s1)
          ok (
              if HashSet.contains group.uuid client.callbacks.executions
              then notify exec.client (execution_started group.uuid worker_uuid) s2
              else s2)
      ]

  -- The loop over the workers. It ends early when no execution is ready.
  unfoldable pub assign_each : List ℕ → Scheduler F C → Result Error (Scheduler F C)
  assign_each [] s = ok s
  assign_each (worker_uuid ∷ rest) s = elim (HashMap.get worker_uuid s.connected_workers) [
    | none ↦ assign_each rest s
    | some worker ↦ elim worker.current_job [
      | some _ ↦ assign_each rest s
      | none ↦ elim (pop s.ready_execs) [
        | none ↦ ok s
        | some (exec, left) ↦
            start_job worker_uuid worker exec (record s { ready_execs = left }) >>= assign_each rest
      ]
    ]
  ]

  unfoldable pub assign_jobs : Scheduler F C → Result Error (Scheduler F C)
  assign_jobs s = assign_each (HashMap.keys s.connected_workers) s

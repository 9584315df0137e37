-- ===== src/Scheduler/Samples.antt =====
-- States of the scheduler for its tests: one worker that runs the generator of the sample DAG, and
-- one that is free.
use task_maker_rust.Base.{ℕ, none, some, [], ◌∷◌}
use task_maker_rust.Base.Int.{pos}
use task_maker_rust.Dag.Execution.{high_priority}
use task_maker_rust.Samples.{dag, watch_all, idle}
use task_maker_rust.Scheduler.State.{Scheduler, SchedulerClientData, ConnectedWorker}

abbrev pub busy_worker : ConnectedWorker
busy_worker = record {
  uuid = 5;
  name = "w";
  current_job = some (record { client = 7; group = 1; start = 2 });
}

abbrev pub free_worker : ConnectedWorker
free_worker = record { uuid = 6; name = "v"; current_job = none }

-- The client of the sample DAG, whose generator runs.
abbrev pub running_client : SchedulerClientData ℕ
running_client = record {
  name = "me";
  dag = dag;
  callbacks = watch_all;
  input_of = (10, 2 ∷ []) ∷ [];
  ready_groups = [];
  running_groups = 1 ∷ [];
  missing_deps = (2, 10 ∷ []) ∷ [];
  file_handles = [];
}

abbrev pub running : Scheduler ℕ ℕ
running = record idle {
  clients = (7, running_client) ∷ [];
  connected_workers = (5, busy_worker) ∷ (6, free_worker) ∷ [];
  now = 3;
}

-- The same after worker 5 has left: its job is ready again.
abbrev pub rescheduled : Scheduler ℕ ℕ
rescheduled = record running {
  ready_execs =
      record { dag_priority = high_priority; priority = pos 1; group = 1; client = 7 } ∷ [];
  clients = (7, record running_client { ready_groups = 1 ∷ []; running_groups = [] }) ∷ [];
  connected_workers = (6, free_worker) ∷ [];
}

-- A scheduler with one free worker.
abbrev pub with_worker : Scheduler ℕ ℕ
with_worker = record idle { connected_workers = (6, free_worker) ∷ []; now = 1 }

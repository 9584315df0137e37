-- ===== src/Scheduler/Tests.antt =====
-- Runs of the scheduler on the sample DAG, and the theorems about it at these inputs.
use task_maker_rust.Base.{
  ℕ, true, false, ◌≤◌, ◌≡◌, refl, ◌≢◌, some, List, [], ◌∷◌, Result, ok, err, ◌>>=◌, map,
}
use task_maker_rust.Base.Tests.{nat_eq}
use task_maker_rust.Samples.{
  seconds, dag, watch_all, no_cache, idle, me, result_of, failed_result, generator,
}
use task_maker_rust.Base.HashMap
use task_maker_rust.Base.HashSet
use task_maker_rust.Scheduler.State.{
  Scheduler, Error, out_of_fuel, ExecutorMessage, execution_started, execution_done, file_ready,
  evaluation_done, new_client_data, is_done, notify, send_executor, send_worker_manager, set_client,
}
use task_maker_rust.Scheduler.Files.{
  for_each, file_message, send_file, skip_group, file_failed_fuel, waiting_groups, file_failed,
  mark_group, mark_file,
}
use task_maker_rust.Scheduler.Jobs.{dep_keys, start_job, assign_each, assign_jobs}
use task_maker_rust.Scheduler.Heap.{less, pop}
use task_maker_rust.Base.Int.{int_ltb}
use task_maker_rust.Dag.Execution.{is_success, is_internal_error}
use task_maker_rust.Dag.Group.{
  stdin_dependency, captured, exec_dependencies, exec_outputs, dependencies, outputs,
}
use task_maker_rust.Scheduler.Completion.{
  tag_allowed, caching_off, store_outputs, is_cacheable, all_success, none_internal_error,
  cache_execution, record_outputs, file_success_with, exec_completed_with, complete_cached,
  apply_answer, look_up_exec, add_verdict, look_up_all, schedule_cached_fuel, schedule_cached,
  exec_completed, pending,
}
use task_maker_rust.Scheduler.Clients.{add_inputs, add_missing, add_group, add_groups}
use task_maker_rust.Scheduler.Handlers.{
  SchedulerMessage, evaluate_dag, worker_connected, worker_result, run, handle, check_completion,
  handle_worker_connected, handle_evaluate_dag, finish_job, handle_worker_result,
}
use task_maker_rust.Base.{subst, arith, inl}
use task_maker_rust.Scheduler.State.{panic}
use task_maker_rust.Scheduler.Handlers.{handle_worker_disconnected, reschedule}
use task_maker_rust.Scheduler.Outcome.{Ends}
use task_maker_rust.Scheduler.Samples.{with_worker}
use task_maker_rust.Scheduler.Conserving.{IsBusy}
use task_maker_rust.Scheduler.Conserving.Handling.{handle-IsBusy}
use task_maker_rust.Scheduler.Soundness.Invariant.{IsSound}
use task_maker_rust.Scheduler.Soundness.Completing.{CacheLaws}
use task_maker_rust.Scheduler.Soundness.Messages.{AreAllowed}
use task_maker_rust.Scheduler.Caching.{cache_of, complete_file, cache_of-CacheLaws}
use task_maker_rust.Scheduler.Safety.{handle-IsSound, run-ne-panic}
use task_maker_rust.Cache.Key.{Names, cache_key_eq}
use task_maker_rust.Cache.Entry.{FileStore}
use task_maker_rust.Cache.Query.{CacheFile}
use task_maker_rust.Scheduler.Termination.Messages.{run-ne-out_of_fuel, pending-exec_completed}

program : Unit {0}
unfolding HashMap.get HashMap.insert HashMap.remove HashSet.contains HashSet.insert HashSet.remove
    ◌>>=◌ is_success is_internal_error stdin_dependency captured dependencies outputs
    exec_dependencies exec_outputs int_ltb less pop new_client_data is_done notify send_executor
    send_worker_manager set_client for_each file_message send_file skip_group file_failed_fuel
    waiting_groups file_failed mark_group mark_file dep_keys start_job assign_each assign_jobs
    tag_allowed caching_off store_outputs is_cacheable all_success none_internal_error
    cache_execution record_outputs file_success_with exec_completed_with complete_cached
    apply_answer look_up_exec add_verdict look_up_all schedule_cached_fuel pending schedule_cached
    exec_completed add_inputs add_missing add_group add_groups check_completion
    handle_worker_connected handle_evaluate_dag finish_job handle_worker_result handle run
    handle_worker_disconnected reschedule
program = tt

-- Both groups run, one after the other, on one worker.
abbrev session : List (ℕ × SchedulerMessage ℕ)
session =
    (1, worker_connected 5 "w")
    ∷ (2, evaluate_dag me dag watch_all)
    ∷ (3, worker_result 5 (result_of ∷ []) ((10, 100) ∷ []))
    ∷ (4, worker_connected 5 "w")
    ∷ (5, worker_result 5 (result_of ∷ []) ((11, 101) ∷ []))
    ∷ []

run-ne-out_of_fuel_example : run no_cache session idle ≢ err out_of_fuel
run-ne-out_of_fuel_example = run-ne-out_of_fuel no_cache session idle

-- What the client hears, in order.
heard : Result Error (Scheduler ℕ ℕ) → List (ExecutorMessage ℕ)
heard (ok s) = map (λ m. m.1) s.executor
heard (err e) = []

run-session :
    heard (run no_cache session idle)
    ≡ execution_started 1 5
      ∷ execution_done 1 (result_of ∷ [])
      ∷ file_ready 10 100 true false
      ∷ execution_started 2 5
      ∷ execution_done 2 (result_of ∷ [])
      ∷ file_ready 11 101 true false
      ∷ evaluation_done
      ∷ []
unfolding heard program
run-session = refl

pending-exec_completed_example :
    (exec_completed no_cache 7 generator (failed_result ∷ []) ((10, 100) ∷ []) false idle
      ≢ err out_of_fuel)
    × ((t : Scheduler ℕ ℕ)
        → exec_completed no_cache 7 generator (failed_result ∷ []) ((10, 100) ∷ []) false idle
          ≡ ok t
        → pending t ≤ pending idle)
pending-exec_completed_example =
    pending-exec_completed no_cache 7 generator (failed_result ∷ []) ((10, 100) ∷ []) false idle

abbrev names : Names
names = record {
  sort_inputs = λ inputs. inputs;
  sort_env = λ env. env;
  sandbox_path = λ fifo. "fifo";
  fifo_name = λ i. "tm_fifo_0";
}

-- The file store has the file of every key.
abbrev stores : ℕ → FileStore
stores n = record { get = λ key. some key; read = λ handle. some (handle ∷ []) }

-- A scheduler that has just started, with an empty cache file.
abbrev starting : Scheduler ℕ (CacheFile ℕ × ℕ)
starting = record {
  cache = (record { entries = []; dirty = false }, 0);
  executor = [];
  executor_open = true;
  worker_manager = [];
  worker_manager_open = true;
  ready_execs = [];
  clients = [];
  connected_workers = [];
  now = 0;
}

cache_of-CacheLaws_example : CacheLaws (cache_of {F = ℕ} names stores)
cache_of-CacheLaws_example = cache_of-CacheLaws {F = ℕ} names stores

starting-IsSound : IsSound starting
unfolding HashMap.get
starting-IsSound = record {
  clients_sound = λ c client h. cc;
  ready_sound = tt;
  jobs_sound = tt;
  cache_sound = λ key set h. cc;
}

ok-injective :
    {s t : Scheduler ℕ (CacheFile ℕ × ℕ)}
    → ◌≡◌ {A = Result Error (Scheduler ℕ (CacheFile ℕ × ℕ))} (ok s) (ok t)
    → s ≡ t
ok-injective h = ground arith

-- A worker connects, then a client asks for the sample DAG.
abbrev joining : List (ℕ × SchedulerMessage ℕ)
joining = (1, worker_connected 6 "v") ∷ (2, evaluate_dag me dag watch_all) ∷ []

joining-AreAllowed :
    AreAllowed (cache_of names stores) (cache_of-CacheLaws names stores) joining starting
unfolding program
joining-AreAllowed = (
  tt,
  λ t e.
      subst
        (λ (s : Scheduler ℕ (CacheFile ℕ × ℕ)).
          AreAllowed (cache_of names stores) (cache_of-CacheLaws names stores)
            ((2, evaluate_dag me dag watch_all) ∷ []) s)
        (ok-injective e)
        (
          (record { not_ready = tt; not_running = (λ job h. cc, tt) }, (refl, (refl, tt))),
          λ u k. tt,
        ),
)

run-ne-panic_example : run (cache_of names stores) joining starting ≢ err panic
run-ne-panic_example =
    run-ne-panic names stores joining starting starting-IsSound joining-AreAllowed

handle-IsSound_example :
    Ends panic IsSound (handle (cache_of names stores) (evaluate_dag me dag watch_all) starting)
unfolding program
handle-IsSound_example =
    handle-IsSound names stores (evaluate_dag me dag watch_all) starting starting-IsSound
      (record { not_ready = tt; not_running = tt }, (refl, (refl, tt)))

handle-IsBusy_example : IsBusy with_worker
unfolding program
handle-IsBusy_example =
    handle-IsBusy no_cache (worker_connected 6 "v") (record idle { now = 1 }) with_worker
      (λ u e. cc) (inl refl) refl

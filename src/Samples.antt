-- ===== src/Samples.antt =====
-- Small inputs for the tests: a generator whose output is read by a solution. Times are numbers of
-- seconds, and the cache is empty.
use task_maker_rust.Base.{ℕ, ◌+◌, ◌-◌, true, false, none, some, List, [], ◌∷◌, ltb}
use task_maker_rust.Base.Float.{Float}
use task_maker_rust.Base.Tests.{nat_beq}
use task_maker_rust.Base.Int.{pos}
use task_maker_rust.Dag.Execution.{
  Execution, no_input, ignored, system, ExecutionResult, success, return_code, capture, from_file,
  File,
}
use task_maker_rust.Dag.Limits.{default_limits}
use task_maker_rust.Dag.Group.{ExecutionDagConfig, everything, ExecutionGroup}
use task_maker_rust.Dag.Data.{ExecutionDagData, ExecutionDagWatchSet}
use task_maker_rust.Scheduler.State.{Scheduler, Cache, miss, ClientInfo}

instance abbrev pub seconds : Float ℕ
seconds = record { add = λ a b. a + b; sub = λ a b. a - b; gt = λ a b. ltb b a; eq = nat_beq }

abbrev pub config : ExecutionDagConfig ℕ
config = record {
  keep_sandboxes = false;
  dry_run = false;
  cache_mode = everything;
  extra_time = 1;
  extra_memory = 8192;
  copy_exe = false;
  copy_logs = false;
  priority = pos 0;
}

abbrev file_of : ℕ → File
file_of uuid = record { uuid = uuid; description = "a file" }

-- A group of one execution, with the file on its standard input, if any, and its captured output.
abbrev pub group_of : ℕ → List (Execution ℕ) → ExecutionGroup ℕ
group_of uuid executions = record {
  uuid = uuid;
  description = "a group";
  executions = executions;
  fifo = [];
  config = config;
  tag = none;
  priority = pos 1;
  controller_settings = none;
}

abbrev blank : Execution ℕ
blank = record {
  description = "an execution";
  command = system "true";
  args = [];
  stdin = no_input;
  stdout = ignored;
  stderr = ignored;
  input_files = [];
  output_files = [];
  env = [];
  copy_env = [];
  limits = default_limits ℕ;
}

abbrev pub generator : ExecutionGroup ℕ
generator = group_of 1 (record blank { stdout = capture (file_of 10) none } ∷ [])

abbrev pub solution : ExecutionGroup ℕ
solution =
    group_of 2 (record blank { stdin = from_file 10; stdout = capture (file_of 11) none } ∷ [])

abbrev pub dag : ExecutionDagData ℕ
dag = record {
  provided_files = [];
  execution_groups = (2, solution) ∷ (1, generator) ∷ [];
  config = config;
}

abbrev pub watch_all : ExecutionDagWatchSet
watch_all = record { executions = 1 ∷ 2 ∷ []; files = 10 ∷ 11 ∷ []; urgent_files = [] }

abbrev pub result_of : ExecutionResult ℕ
result_of = record {
  status = success;
  was_killed = false;
  was_cached = false;
  resources = record { cpu_time = 0; sys_time = 0; wall_time = 0; memory = 0 };
  stdout = none;
  stderr = none;
}

abbrev pub failed_result : ExecutionResult ℕ
failed_result = record result_of { status = return_code 1 }

-- A cache that finds nothing, and counts what it stores.
abbrev pub no_cache : Cache ℕ ℕ
no_cache = record {
  lookup = λ c group handles. some (miss, c);
  store = λ c group handles result. some (c + 1);
}

-- A scheduler that has just started.
abbrev pub idle : Scheduler ℕ ℕ
idle = record {
  cache = 0;
  executor = [];
  executor_open = true;
  worker_manager = [];
  worker_manager_open = true;
  ready_execs = [];
  clients = [];
  connected_workers = [];
  now = 0;
}

abbrev pub me : ClientInfo
me = record { uuid = 7; name = "me" }

-- ===== src/Dag/Execution.antt =====
-- task-maker-dag/src/execution.rs and file.rs: the data of an execution. Identifiers (UUIDs) are
-- numbers, paths are strings, `F` stands for `f64`.
use task_maker_rust.Base.{
  ℕ, String, Bool, true, false, Option, none, some, List, [], if◌then◌else◌, ltb,
}
use task_maker_rust.Base.HashMap.{HashMap}
use task_maker_rust.Base.Int.{ℤ, pos}
use task_maker_rust.Base.Float.{Float}
use task_maker_rust.Dag.Limits.{ExecutionLimits, default_limits}

-- A bound that the scheduler gives to executions which should run very soon.
abbrev pub high_priority : ℤ
high_priority = pos 1_000_000_000_000

pub data ExecutionCommand : Type 0 where
  system : String → ExecutionCommand
  local : String → ExecutionCommand
  typst_compilation : List (String × String) → ExecutionCommand

pub record ExecutionInput : Type 0 where
  pub file : ℕ
  pub executable : Bool

pub record File : Type 0 where
  pub uuid : ℕ
  pub description : String

pub data ExecutionOutputBehaviour : Type 0 where
  capture : (file : File) (size_limit : Option ℕ) → ExecutionOutputBehaviour
  path : String → ExecutionOutputBehaviour
  ignored inherit : ExecutionOutputBehaviour

pub data ExecutionInputBehaviour : Type 0 where
  from_file : ℕ → ExecutionInputBehaviour
  from_path : String → ExecutionInputBehaviour
  no_input inherit_input : ExecutionInputBehaviour

pub record Execution (F : Type 0) : Type 0 where
  pub description : String
  pub command : ExecutionCommand
  pub args : List String
  pub stdin : ExecutionInputBehaviour
  pub stdout : ExecutionOutputBehaviour
  pub stderr : ExecutionOutputBehaviour
  pub input_files : HashMap String ExecutionInput
  pub output_files : HashMap String File
  pub env : HashMap String String
  pub copy_env : List String
  pub limits : ExecutionLimits F

pub data ExecutionStatus : Type 0 where
  success : ExecutionStatus
  failure : String → ExecutionStatus
  return_code : ℕ → ExecutionStatus
  signal : ℕ → String → ExecutionStatus
  time_limit_exceeded sys_time_limit_exceeded : ExecutionStatus
  wall_time_limit_exceeded memory_limit_exceeded : ExecutionStatus
  internal_error : String → ExecutionStatus

pub record ExecutionResourcesUsage (F : Type 0) : Type 0 where
  pub cpu_time : F
  pub sys_time : F
  pub wall_time : F
  pub memory : ℕ

pub record ExecutionResult (F : Type 0) : Type 0 where
  pub status : ExecutionStatus
  pub was_killed : Bool
  pub was_cached : Bool
  pub resources : ExecutionResourcesUsage F
  pub stdout : Option (List ℕ)
  pub stderr : Option (List ℕ)

unfoldable pub is_success : ExecutionStatus → Bool
is_success success = true
is_success _ = false

unfoldable pub is_internal_error : ExecutionStatus → Bool
is_internal_error (internal_error e) = true
is_internal_error _ = false

-- `Execution::new`.
unfoldable pub new_execution : {F : Type 0} → String → ExecutionCommand → Execution F
new_execution {F} description command = record {
  description = description;
  command = command;
  args = [];
  stdin = ExecutionInputBehaviour.no_input;
  stdout = ExecutionOutputBehaviour.ignored;
  stderr = ExecutionOutputBehaviour.ignored;
  input_files = [];
  output_files = [];
  env = [];
  copy_env = [];
  limits = default_limits F;
}

abbrev pub exceeds_memory : ℕ → Option ℕ → Bool
exceeds_memory used none = false
exceeds_memory used (some limit) = ltb limit used

module _ {F : Type 0} ⦃fl : Float F⦄ where
  -- `resources.x > limit`, where the limit is present.
  abbrev pub exceeds : F → Option F → Bool
  exceeds used none = false
  exceeds used (some limit) = fl.gt used limit

  -- `Execution::status`: the status seen under the limits of the execution.
  unfoldable pub status :
      Execution F → ExecutionStatus → ExecutionResourcesUsage F → ExecutionStatus
  status exec given resources =
      if exceeds resources.cpu_time exec.limits.cpu_time
      then time_limit_exceeded
      else if exceeds resources.sys_time exec.limits.sys_time
      then sys_time_limit_exceeded
      else if exceeds resources.wall_time exec.limits.wall_time
      then wall_time_limit_exceeded
      else if exceeds_memory resources.memory exec.limits.memory
      then memory_limit_exceeded
      else given

-- ===== src/Dag/Group.antt =====
-- task-maker-dag/src/execution_group.rs and the configuration of dag.rs.
use task_maker_rust.Base.{ℕ, String, Bool, Option, List, [], ◌∷◌, ◌++◌, map}
use task_maker_rust.Base.HashMap.{values}
use task_maker_rust.Base.HashSet.{HashSet}
use task_maker_rust.Base.Int.{ℤ}
use task_maker_rust.Dag.Execution.{
  Execution, ExecutionInputBehaviour, from_file, ExecutionOutputBehaviour, capture,
}

-- A tag is its name.
pub data CacheMode : Type 0 where
  everything nothing : CacheMode
  except : HashSet String → CacheMode

pub record ExecutionDagConfig (F : Type 0) : Type 0 where
  pub keep_sandboxes : Bool
  pub dry_run : Bool
  pub cache_mode : CacheMode
  pub extra_time : F
  pub extra_memory : ℕ
  pub copy_exe : Bool
  pub copy_logs : Bool
  pub priority : ℤ

pub record Fifo : Type 0 where
  pub uuid : ℕ

pub record ControllerSettings : Type 0 where
  pub process_limit : ℕ
  pub concurrent : Bool

pub record ExecutionGroup (F : Type 0) : Type 0 where
  pub uuid : ℕ
  pub description : String
  pub executions : List (Execution F)
  pub fifo : List Fifo
  pub config : ExecutionDagConfig F
  pub tag : Option String
  pub priority : ℤ
  pub controller_settings : Option ControllerSettings

unfoldable pub stdin_dependency : ExecutionInputBehaviour → List ℕ
stdin_dependency (from_file stdin) = stdin ∷ []
stdin_dependency _ = []

unfoldable pub captured : ExecutionOutputBehaviour → List ℕ
captured (capture file size_limit) = file.uuid ∷ []
captured _ = []

module _ {F : Type 0} where
  -- The files that one execution reads: `stdin`, then the inputs.
  unfoldable pub exec_dependencies : Execution F → List ℕ
  unfolding stdin_dependency
  exec_dependencies exec =
      stdin_dependency exec.stdin ++ map (λ input. input.file) (values exec.input_files)

  unfoldable pub exec_outputs : Execution F → List ℕ
  unfolding captured
  exec_outputs exec =
      captured exec.stdout
      ++ captured exec.stderr
      ++ map (λ output. output.uuid) (values exec.output_files)

  unfoldable pub dependencies_of : List (Execution F) → List ℕ
  unfolding exec_dependencies
  dependencies_of [] = []
  dependencies_of (exec ∷ rest) = exec_dependencies exec ++ dependencies_of rest

  unfoldable pub outputs_of : List (Execution F) → List ℕ
  unfolding exec_outputs
  outputs_of [] = []
  outputs_of (exec ∷ rest) = exec_outputs exec ++ outputs_of rest

  unfoldable pub dependencies : ExecutionGroup F → List ℕ
  unfolding dependencies_of
  dependencies group = dependencies_of group.executions

  unfoldable pub outputs : ExecutionGroup F → List ℕ
  unfolding outputs_of
  outputs group = outputs_of group.executions

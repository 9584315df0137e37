-- ===== src/Dag/Data.antt =====
-- task-maker-dag/src/dag.rs: the DAG that a client sends, and what it watches
-- (task-maker-exec/src/executor.rs).
use task_maker_rust.Base.{ℕ, String, List}
use task_maker_rust.Base.Tests.{nat_eq}
use task_maker_rust.Base.HashMap.{HashMap}
use task_maker_rust.Base.HashMap
use task_maker_rust.Base.HashSet.{HashSet}
use task_maker_rust.Dag.Execution.{File}
use task_maker_rust.Dag.Group.{ExecutionGroup, ExecutionDagConfig}

pub data ProvidedFile : Type 0 where
  local_file : (file : File) (key : ℕ) (local_path : String) → ProvidedFile
  content : (file : File) (key : ℕ) (bytes : List ℕ) → ProvidedFile

pub record ExecutionDagData (F : Type 0) : Type 0 where
  pub provided_files : HashMap ℕ ProvidedFile
  pub execution_groups : HashMap ℕ (ExecutionGroup F)
  pub config : ExecutionDagConfig F

pub record ExecutionDagWatchSet : Type 0 where
  pub executions : HashSet ℕ
  pub files : HashSet ℕ
  pub urgent_files : HashSet ℕ

module _ {F : Type 0} where
  -- `ExecutionDAG::add_execution_group`: the group takes the configuration of the DAG.
  unfoldable pub add_execution_group : ExecutionDagData F → ExecutionGroup F → ExecutionDagData F
  add_execution_group dag group =
      let group' = record group { config = dag.config } in
      record dag { execution_groups = HashMap.insert group.uuid group' dag.execution_groups }

  -- `ExecutionDAG::provide_content`, with the key that the store computes for the content.
  unfoldable pub provide_content : ExecutionDagData F → File → ℕ → List ℕ → ExecutionDagData F
  provide_content dag file key bytes = record dag {
    provided_files = HashMap.insert file.uuid (content file key bytes) dag.provided_files;
  }

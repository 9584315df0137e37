-- ===== src/Dag/Config.antt =====
-- task-maker-dag/src/dag.rs and execution_group.rs: the configuration of a DAG, and the operations
-- that build it. A new identifier, the key of a file in the store and the constant 0.5 are arguments.
use task_maker_rust.Base.{
  ℕ, ◌*◌, String, false, Option, none, some, List, [], ◌∷◌, ◌++◌, if◌then◌else◌, Result, ok, err,
  ◌>>=◌,
}
use task_maker_rust.Base.Tests.{nat_eq, string_eq}
use task_maker_rust.Base.HashMap
use task_maker_rust.Base.HashMap.{HashMap}
use task_maker_rust.Base.HashSet
use task_maker_rust.Base.HashSet.{HashSet}
use task_maker_rust.Base.Int.{pos}
use task_maker_rust.Dag.Execution.{Execution, File}
use task_maker_rust.Dag.Group.{
  CacheMode, everything, nothing, except, ExecutionDagConfig, Fifo, ExecutionGroup,
}
use task_maker_rust.Dag.Data.{local_file, ExecutionDagData, add_execution_group}

-- `ExecutionDAGConfig::new`.
unfoldable pub new_config : {F : Type 0} → (half : F) → ExecutionDagConfig F
new_config half = record {
  keep_sandboxes = false;
  dry_run = false;
  cache_mode = everything;
  extra_time = half;
  extra_memory = 8 * 1024;
  copy_exe = false;
  copy_logs = false;
  priority = pos 0;
}

-- `ExecutionGroup::new`.
unfoldable pub new_group : {F : Type 0} → (half : F) (uuid : ℕ) → String → ExecutionGroup F
new_group half uuid descr = record {
  uuid = uuid;
  description = descr;
  executions = [];
  fifo = [];
  config = new_config half;
  tag = none;
  priority = pos 0;
  controller_settings = none;
}

-- `ExecutionDAG::new`, the part that is sent.
unfoldable pub new_dag : {F : Type 0} → (half : F) → ExecutionDagData F
new_dag half = record { provided_files = []; execution_groups = []; config = new_config half }

module _ {F : Type 0} where
  -- `ExecutionGroup::add_execution`.
  unfoldable pub push_execution : Execution F → ExecutionGroup F → ExecutionGroup F
  push_execution exec group = record group { executions = group.executions ++ exec ∷ [] }

  -- `ExecutionGroup::new_fifo`.
  unfoldable pub new_fifo : (uuid : ℕ) → ExecutionGroup F → Fifo × ExecutionGroup F
  new_fifo uuid group =
      let fifo : Fifo = record { uuid = uuid } in
      (fifo, record group { fifo = group.fifo ++ fifo ∷ [] })

  -- `Execution::into_group`.
  unfoldable pub group_of_execution : (half : F) (uuid : ℕ) → Execution F → ExecutionGroup F
  unfolding new_group push_execution
  group_of_execution half uuid exec = push_execution exec (new_group half uuid exec.description)

  -- `ExecutionDAG::add_execution`: the group of one execution, with the configuration of the DAG.
  unfoldable pub add_execution :
      (half : F) (uuid : ℕ) → ExecutionDagData F → Execution F → ℕ × ExecutionDagData F
  add_execution half uuid dag execution =
      (uuid, add_execution_group dag (group_of_execution half uuid execution))

  -- `ExecutionDAG::provide_file`. There is no key where the file on disk cannot be read.
  unfoldable pub provide_file :
      (key_of_file : String → Option ℕ)
      → ExecutionDagData F
      → File
      → String
      → Option (ExecutionDagData F)
  provide_file key_of_file dag file path = elim (key_of_file path) [
    | none ↦ none
    | some key ↦ some (record dag {
      provided_files = HashMap.insert file.uuid (local_file file key path) dag.provided_files;
    })
  ]

-- The loop over the tags: the first one that is not valid is the error.
unfoldable pub check_tags : List String → HashSet String → Result String (Unit {0})
check_tags valid_tags [] = ok tt
check_tags valid_tags (tag ∷ tags) =
    let rest = check_tags valid_tags tags in
    if HashSet.contains tag valid_tags then rest else err tag

-- The set of the tags of a list.
unfoldable pub collect_tags : List String → HashSet String
collect_tags [] = []
collect_tags (tag ∷ tags) = HashSet.insert tag (collect_tags tags)

-- `CacheMode::try_from`, with the split of a text at its commas. The error is the invalid tag.
unfoldable pub try_from :
    (split : String → List String) → Option (Option String) → List String → Result String CacheMode
try_from split none valid_tags = ok everything
try_from split (some none) valid_tags = ok nothing
try_from split (some (some list)) valid_tags = do
  let tags = collect_tags (split list)
  _ ← check_tags valid_tags tags
  ok (except tags)

-- ===== src/Cache/Entry.antt =====
-- task-maker-cache/src/entry.rs: the entries of the cache, and their outputs in the file store.
use task_maker_rust.Base.{ℕ, String, Option, none, some, List, [], ◌∷◌}
use task_maker_rust.Base.Options.{◌>>=◌, map_all}
use task_maker_rust.Base.Tests.{nat_eq, string_eq}
use task_maker_rust.Base.HashMap
use task_maker_rust.Base.HashMap.{HashMap}
use task_maker_rust.Dag.Execution.{
  Execution, ExecutionOutputBehaviour, capture, ExecutionResult, File,
}
use task_maker_rust.Dag.Limits.{ExecutionLimits}
use task_maker_rust.Dag.Group.{ExecutionGroup}

-- What the cache uses of `FileStore`: the handle of a key, if the file is there, and its content.
pub record FileStore : Type 0 where
  pub get : ℕ → Option ℕ
  pub read : ℕ → Option (List ℕ)

pub record CacheEntryItem (F : Type 0) : Type 0 where
  pub result : ExecutionResult F
  pub limits : ExecutionLimits F
  pub stdout : Option ℕ
  pub stderr : Option ℕ
  pub outputs : HashMap String ℕ

pub record CacheEntry (F : Type 0) : Type 0 where
  pub items : List (CacheEntryItem F)
  pub extra_time : F
  pub extra_memory : ℕ

-- The key of a captured output, if the file has a handle.
unfoldable pub captured_key : HashMap ℕ ℕ → ExecutionOutputBehaviour → Option ℕ
captured_key file_keys (capture file size_limit) = HashMap.get file.uuid file_keys
captured_key file_keys _ = none

-- The key of an output file. A missing handle is a panic.
unfoldable pub output_key : HashMap ℕ ℕ → String × File → Option (String × ℕ)
output_key file_keys (path, file) = do key ← HashMap.get file.uuid file_keys; some (path, key)

module _ {F : Type 0} where
  -- `CacheEntryItem::from_execution`.
  unfoldable pub item_of_execution :
      Execution F → HashMap ℕ ℕ → ExecutionResult F → Option (CacheEntryItem F)
  item_of_execution execution file_keys result = do
    outputs ← map_all (output_key file_keys) execution.output_files
    some (record {
      result = record result { stdout = none; stderr = none };
      limits = execution.limits;
      stdout = captured_key file_keys execution.stdout;
      stderr = captured_key file_keys execution.stderr;
      outputs = outputs;
    })

  -- The loop over the executions and their results, up to the end of the shorter list.
  unfoldable pub items_of_executions :
      List (Execution F) → HashMap ℕ ℕ → List (ExecutionResult F) → Option (List (CacheEntryItem F))
  items_of_executions [] file_keys results = some []
  items_of_executions (exec ∷ execs) file_keys [] = some []
  items_of_executions (exec ∷ execs) file_keys (res ∷ results) = do
    item ← item_of_execution exec file_keys res
    items ← items_of_executions execs file_keys results
    some (item ∷ items)

  -- `CacheEntry::from_execution_group`.
  unfoldable pub entry_of_group :
      ExecutionGroup F → HashMap ℕ ℕ → List (ExecutionResult F) → Option (CacheEntry F)
  entry_of_group group file_keys result = do
    items ← items_of_executions group.executions file_keys result
    some (record {
      items = items;
      extra_time = group.config.extra_time;
      extra_memory = group.config.extra_memory;
    })

module _ (file_store : FileStore) where
  -- The handle of a captured output is added. Without a key, or without the file, there is none.
  unfoldable pub add_captured :
      ExecutionOutputBehaviour → Option ℕ → HashMap ℕ ℕ → Option (HashMap ℕ ℕ)
  add_captured (capture file size_limit) key outputs = do
    k ← key
    handle ← file_store.get k
    some (HashMap.insert file.uuid handle outputs)
  add_captured _ key outputs = some outputs

  unfoldable pub add_output_files :
      HashMap String File → HashMap String ℕ → HashMap ℕ ℕ → Option (HashMap ℕ ℕ)
  add_output_files [] keys outputs = some outputs
  add_output_files ((path, file) ∷ files) keys outputs = do
    k ← HashMap.get path keys
    handle ← file_store.get k
    add_output_files files keys (HashMap.insert file.uuid handle outputs)

  module _ {F : Type 0} where
    unfoldable pub add_outputs : Execution F → CacheEntryItem F → HashMap ℕ ℕ → Option (HashMap ℕ ℕ)
    add_outputs exec item outputs = do
      outs1 ← add_captured exec.stdout item.stdout outputs
      outs2 ← add_captured exec.stderr item.stderr outs1
      add_output_files exec.output_files item.outputs outs2

    unfoldable pub add_all_outputs :
        List (Execution F) → List (CacheEntryItem F) → HashMap ℕ ℕ → Option (HashMap ℕ ℕ)
    add_all_outputs [] items outputs = some outputs
    add_all_outputs (exec ∷ execs) [] outputs = some outputs
    add_all_outputs (exec ∷ execs) (item ∷ items) outputs =
        add_outputs exec item outputs >>= add_all_outputs execs items

    -- `CacheEntry::outputs`: none if a file is missing.
    unfoldable pub entry_outputs : CacheEntry F → ExecutionGroup F → Option (HashMap ℕ ℕ)
    entry_outputs entry group = add_all_outputs group.executions entry.items []

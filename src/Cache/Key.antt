-- ===== src/Cache/Key.antt =====
-- task-maker-cache/src/key.rs: the key of a group of executions. The key of a file in the store
-- stands for its handle.
use task_maker_rust.Base.{ℕ, suc, String, Bool, Option, none, some, List, [], ◌∷◌, map}
use native.Mathlib.Decide.{ℕ_discrete}
use task_maker_rust.Base.Discrete.{String_discrete, eq_of_discrete}
use task_maker_rust.Base.Options.{◌>>=◌, map_all}
use task_maker_rust.Base.Tests.{nat_eq, string_eq, Eq}
use task_maker_rust.Base.HashMap
use task_maker_rust.Base.HashMap.{HashMap}
use task_maker_rust.Dag.Execution.{
  Execution, ExecutionCommand, ExecutionInput, ExecutionInputBehaviour, from_file,
}
use task_maker_rust.Dag.Group.{ExecutionGroup, Fifo}

-- What the source takes from libraries: the sort of itertools, the text of a UUID with the
-- directory in front of it (`Fifo::sandbox_path`), and the name `tm_fifo_{i}`.
pub record Names : Type 0 where
  pub sort_inputs : List (String × ℕ × Bool) → List (String × ℕ × Bool)
  pub sort_env : List (String × String) → List (String × String)
  pub sandbox_path : Fifo → String
  pub fifo_name : ℕ → String

pub record CacheKeyItem : Type 0 where
  pub command : ExecutionCommand
  pub args : List String
  pub stdin : Option ℕ
  pub inputs : List (String × ℕ × Bool)
  pub env : List (String × String)

pub record CacheKey : Type 0 where
  pub items : List CacheKeyItem

-- Each in its own step: a command, a line of the inputs, an item, a key.
unfoldable ExecutionCommand-discrete : Discrete ExecutionCommand
ExecutionCommand-discrete = hlevel String_discrete

unfoldable CacheKeyItem-discrete : Discrete CacheKeyItem
unfolding ExecutionCommand-discrete
CacheKeyItem-discrete = hlevel (String_discrete, ℕ_discrete, ExecutionCommand-discrete)

unfoldable pub CacheKey-discrete : Discrete CacheKey
unfolding CacheKeyItem-discrete
CacheKey-discrete = hlevel CacheKeyItem-discrete

instance abbrev pub cache_key_eq : Eq CacheKey
cache_key_eq = eq_of_discrete CacheKey-discrete

-- The key of the standard input. A missing handle is a panic.
unfoldable pub stdin_key : HashMap ℕ ℕ → ExecutionInputBehaviour → Option (Option ℕ)
stdin_key file_keys (from_file file) = do key ← HashMap.get file file_keys; some (some key)
stdin_key file_keys _ = some none

unfoldable pub input_key : HashMap ℕ ℕ → String × ExecutionInput → Option (String × ℕ × Bool)
input_key file_keys (path, input) = do
  key ← HashMap.get input.file file_keys
  some (path, key, input.executable)

module _ (names : Names) where
  -- The names of the pipes, by their place in the group. `i` is the counter of the loop.
  unfoldable pub fifo_names : ℕ → List Fifo → HashMap String String → HashMap String String
  fifo_names i [] fifos = fifos
  fifo_names i (fifo ∷ rest) fifos =
      fifo_names (suc i) rest (HashMap.insert (names.sandbox_path fifo) (names.fifo_name i) fifos)

  unfoldable pub rename_arg : HashMap String String → String → String
  rename_arg fifos arg = elim (HashMap.get arg fifos) [ none ↦ arg | some name ↦ name ]

  unfoldable pub key_args : List Fifo → List String → List String
  key_args fifos args = map (rename_arg (fifo_names 0 fifos [])) args

  module _ {F : Type 0} where
    -- `CacheKeyItem::from_execution`, in a group.
    unfoldable pub key_item : HashMap ℕ ℕ → ExecutionGroup F → Execution F → Option CacheKeyItem
    key_item file_keys group execution = do
      stdin ← stdin_key file_keys execution.stdin
      inputs ← map_all (input_key file_keys) execution.input_files
      some (record {
        command = execution.command;
        args = key_args group.fifo execution.args;
        stdin = stdin;
        inputs = names.sort_inputs inputs;
        env = names.sort_env execution.env;
      })

    -- `CacheKey::from_execution_group`.
    unfoldable pub key_of_group : ExecutionGroup F → HashMap ℕ ℕ → Option CacheKey
    key_of_group group file_keys = do
      items ← map_all (key_item file_keys group) group.executions
      some (record { items = items })

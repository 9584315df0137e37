-- ===== src/Dag/Builders.antt =====
-- task-maker-dag/src/execution.rs: the operations that build an execution. The identifier of a new
-- file, and its description, are arguments.
use task_maker_rust.Base.{ℕ, String, Bool, Option, none, some, List, [], ◌∷◌, ◌++◌}
use task_maker_rust.Base.Tests.{nat_eq, string_eq}
use task_maker_rust.Base.HashMap
use task_maker_rust.Base.HashMap.{HashMap}
use task_maker_rust.Dag.Execution.{
  Execution, ExecutionInputBehaviour, ExecutionOutputBehaviour, capture, path, File,
}

-- The match of `capture_stdout` and `capture_stderr`: a captured file is kept, with the new limit.
unfoldable pub capture_with :
    (new_file : File) → Option ℕ → ExecutionOutputBehaviour → File × ExecutionOutputBehaviour
capture_with new_file size_limit (capture file old_limit) = (file, capture file size_limit)
capture_with new_file size_limit _ = (new_file, capture new_file size_limit)

module _ {F : Type 0} where
  unfoldable pub args : List String → Execution F → Execution F
  args new_args exec = record exec { args = new_args }

  unfoldable pub stdin : ExecutionInputBehaviour → Execution F → Execution F
  stdin behaviour exec = record exec { stdin = behaviour }

  unfoldable pub capture_stdout : (new_file : File) → Option ℕ → Execution F → File × Execution F
  capture_stdout new_file size_limit exec =
      let (file, behaviour) = capture_with new_file size_limit exec.stdout in
      (file, record exec { stdout = behaviour })

  unfoldable pub capture_stderr : (new_file : File) → Option ℕ → Execution F → File × Execution F
  capture_stderr new_file size_limit exec =
      let (file, behaviour) = capture_with new_file size_limit exec.stderr in
      (file, record exec { stderr = behaviour })

  unfoldable pub stdout_redirect_path : String → Execution F → Execution F
  stdout_redirect_path p exec = record exec { stdout = path p }

  unfoldable pub stderr_redirect_path : String → Execution F → Execution F
  stderr_redirect_path p exec = record exec { stderr = path p }

  unfoldable pub input : (file : ℕ) (path : String) (executable : Bool) → Execution F → Execution F
  input file p executable exec = record exec {
    input_files =
        HashMap.insert p (record { file = file; executable = executable }) exec.input_files;
  }

  -- An output that is there is kept.
  unfoldable pub output : (new_file : File) → String → Execution F → File × Execution F
  output new_file p exec = elim (HashMap.get p exec.output_files) [
    | some file ↦ (file, exec)
    | none ↦ (new_file, record exec { output_files = HashMap.insert p new_file exec.output_files })
  ]

  unfoldable pub env : String → String → Execution F → Execution F
  env key value exec = record exec { env = HashMap.insert key value exec.env }

  unfoldable pub copy_env : String → Execution F → Execution F
  copy_env key exec = record exec { copy_env = exec.copy_env ++ key ∷ [] }

-- ===== src/CheckDag/Errors.antt =====
-- task-maker-exec/src/check_dag.rs: the errors in a DAG, and the state of the check.
use task_maker_rust.Base.{ℕ, String, Option, none, some, List, Result, ok, err}
use task_maker_rust.Base.HashMap.{HashMap}
use task_maker_rust.Base.HashSet.{HashSet}

-- `DAGError`.
pub data DagError : Type 0 where
  missing_file : (uuid : ℕ) (description : String) → DagError
  missing_execution : (uuid : ℕ) → DagError
  cycle_detected : (description : String) → DagError
  duplicate_file_uuid duplicate_fifo_uuid duplicate_execution_uuid : (uuid : ℕ) → DagError
  empty_group : (uuid : ℕ) → DagError

-- How the check ends early: the DAG is rejected, or the check panics. `out_of_fuel` is no outcome
-- of the source.
pub data Stop : Type 0 where
  rejected : DagError → Stop
  panic out_of_fuel : Stop

-- An `expect`, and the index operator of a map.
abbrev pub or_panic {ℓ} : {A : Type ℓ} → Option A → Result Stop A
or_panic none = err panic
or_panic (some a) = ok a

-- The local variables of `check_dag`. The queues have their front first.
pub record Progress : Type 0 where
  pub dependencies : HashMap ℕ (List ℕ)
  pub num_dependencies : HashMap ℕ ℕ
  pub known_files : HashSet ℕ
  pub known_execs : HashSet ℕ
  pub ready_groups : List ℕ
  pub ready_files : List ℕ

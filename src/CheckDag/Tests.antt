-- ===== src/CheckDag/Tests.antt =====
-- `check_dag` on the sample DAG and on ones that it rejects, as in the tests of
-- task-maker-exec/src/check_dag.rs.
use task_maker_rust.Base.{All, true, ℕ, String, ◌≡◌, ◌≢◌, refl, none, [], ◌∷◌, ok, err, ◌>>=◌}
use task_maker_rust.Base.HashMap
use task_maker_rust.Base.HashSet
use task_maker_rust.Samples.{dag, watch_all, generator, solution}
use task_maker_rust.Dag.Execution.{system, from_file, capture, ignored}
use task_maker_rust.Dag.Limits.{default_limits}
use task_maker_rust.Dag.Group.{
  stdin_dependency, captured, exec_dependencies, exec_outputs, dependencies_of, outputs_of,
  dependencies, outputs,
}
use task_maker_rust.Dag.Data.{ExecutionDagData, ExecutionDagWatchSet}
use task_maker_rust.CheckDag.Errors.{
  rejected, missing_file, missing_execution, cycle_detected, out_of_fuel,
}
use task_maker_rust.CheckDag.Adding.{
  add_dependencies, check_fifos, add_outputs, add_group, add_groups, add_provided,
}
use task_maker_rust.CheckDag.Visiting.{
  count_down, count_all_down, visit_files, visit_groups, visit_round, visit, find_missing,
  find_unreached, check_executions, waiting, collect, check_dag,
}
use task_maker_rust.CheckDag.Ending.{check_dag-ne-out_of_fuel}
use task_maker_rust.CheckDag.Order.{Available}
use task_maker_rust.CheckDag.Accepted.{AreApart, check_dag-Available}
use task_maker_rust.CheckDag.Learning.{has_group}
use task_maker_rust.CheckDag.Known.{IsThere, check_dag-known}

program : Unit {0}
unfolding HashMap.get HashMap.insert HashSet.contains HashSet.insert ◌>>=◌ stdin_dependency captured
    exec_dependencies exec_outputs dependencies_of outputs_of dependencies outputs add_dependencies
    check_fifos add_outputs add_group add_groups add_provided count_down count_all_down visit_files
    visit_groups visit_round visit find_missing find_unreached check_executions waiting collect
    check_dag
program = tt

-- The text `Dependency of '...'`, without the description.
abbrev dependency_of : String → String
dependency_of description = "Dependency"

abbrev watch_none : ExecutionDagWatchSet
watch_none = record { executions = []; files = []; urgent_files = [] }

accepted : check_dag dependency_of dag watch_all ≡ ok tt
unfolding program
accepted = refl

-- The solution alone: its input is missing.
abbrev incomplete : ExecutionDagData ℕ
incomplete = record dag { execution_groups = (2, solution) ∷ [] }

incomplete_rejected :
    check_dag dependency_of incomplete watch_none ≡ err (rejected (missing_file 10 "Dependency"))
unfolding program
incomplete_rejected = refl

-- The generator reads what the solution writes.
abbrev cyclic : ExecutionDagData ℕ
cyclic = record dag {
  execution_groups =
      (2, solution)
      ∷ (
        1,
        record generator {
          executions =
              record {
                description = "an execution";
                command = system "true";
                args = [];
                stdin = from_file 11;
                stdout = capture (record { uuid = 10; description = "a file" }) none;
                stderr = ignored;
                input_files = [];
                output_files = [];
                env = [];
                copy_env = [];
                limits = default_limits ℕ;
              }
              ∷ [];
        },
      )
      ∷ [];
}

cyclic_rejected :
    check_dag dependency_of cyclic watch_none ≡ err (rejected (cycle_detected "a group"))
unfolding program
cyclic_rejected = refl

unknown_execution_rejected :
    check_dag dependency_of dag (record watch_all { executions = 3 ∷ [] })
    ≡ err (rejected (missing_execution 3))
unfolding program
unknown_execution_rejected = refl

check_dag-ne-out_of_fuel_example : check_dag dependency_of cyclic watch_none ≢ err out_of_fuel
check_dag-ne-out_of_fuel_example = check_dag-ne-out_of_fuel dependency_of cyclic watch_none

check_dag-known_example :
    All (IsThere dag) watch_all.files
    × All (λ g. has_group dag.execution_groups g ≡ true) watch_all.executions
unfolding program
check_dag-known_example = check_dag-known dependency_of dag watch_all refl

dag-AreApart : AreApart dag.execution_groups
unfolding program
dag-AreApart = (refl, (refl, tt))

-- The input of the solution can be had.
check_dag-Available_example : Available dag 10
unfolding program
check_dag-Available_example =
    check_dag-Available dag dependency_of watch_all 2 solution 10 dag-AreApart refl refl refl

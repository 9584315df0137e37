-- ===== src/CheckDag/Visiting.antt =====
-- task-maker-exec/src/check_dag.rs: the visit of the DAG, and `check_dag` itself.
use task_maker_rust.Base.{
  ℕ, zero, suc, ◌+◌, String, ◌&&◌, none, some, List, [], ◌∷◌, ◌++◌, if◌then◌else◌, Result, ok, err,
  ◌>>=◌, is_empty, length,
}
use task_maker_rust.Base.Tests.{nat_eq, nat_beq}
use task_maker_rust.Base.HashMap
use task_maker_rust.Base.HashMap.{HashMap}
use task_maker_rust.Base.HashSet
use task_maker_rust.Base.HashSet.{HashSet}
use task_maker_rust.Dag.Group.{ExecutionGroup, dependencies, outputs}
use task_maker_rust.Dag.Data.{ExecutionDagData, ExecutionDagWatchSet}
use task_maker_rust.CheckDag.Errors.{
  Stop, rejected, panic, out_of_fuel, or_panic, missing_file, missing_execution, cycle_detected,
  Progress,
}
use task_maker_rust.CheckDag.Adding.{add_groups, add_provided}

-- One dependency of a group is there: the group is ready when none is left.
unfoldable pub count_down : ℕ → Progress → Result Stop Progress
count_down group_uuid p = elim (HashMap.get group_uuid p.num_dependencies) [
  | none ↦ err panic
  | some zero ↦ err panic
  | some (suc num_deps) ↦ ok (record p {
    num_dependencies = HashMap.insert group_uuid num_deps p.num_dependencies;
    ready_groups = if nat_beq num_deps 0 then p.ready_groups ++ group_uuid ∷ [] else p.ready_groups;
  })
]

unfoldable pub count_all_down : List ℕ → Progress → Result Stop Progress
count_all_down [] p = ok p
count_all_down (group ∷ groups) p = count_down group p >>= count_all_down groups

-- The loop over the files that are ready.
unfoldable pub visit_files : List ℕ → Progress → Result Stop Progress
visit_files [] p = ok p
visit_files (file ∷ files) p = elim (HashMap.get file p.dependencies) [
  | none ↦ visit_files files p
  | some groups ↦ count_all_down groups p >>= visit_files files
]

-- The dependencies of a group that is not reached: one of them may be missing.
unfoldable pub find_missing : String → List ℕ → HashSet ℕ → Result Stop (Unit {0})
find_missing description [] known = ok tt
find_missing description (dep ∷ deps) known =
    let rest = find_missing description deps known in
    if HashSet.contains dep known then rest else err (rejected (missing_file dep description))

module _ {F : Type 0} where
  -- The loop over the groups that are ready: their outputs are.
  unfoldable pub visit_groups :
      HashMap ℕ (ExecutionGroup F) → List ℕ → Progress → Result Stop Progress
  visit_groups groups [] p = ok p
  visit_groups groups (group_uuid ∷ rest) p = do
    group ← or_panic (HashMap.get group_uuid groups)
    visit_groups groups rest (record p { ready_files = p.ready_files ++ outputs group })

  -- One round of the visit. Both queues are drained.
  unfoldable pub visit_round : HashMap ℕ (ExecutionGroup F) → Progress → Result Stop Progress
  visit_round groups p = do
    p1 ← visit_files p.ready_files (record p { ready_files = [] })
    visit_groups groups p1.ready_groups (record p1 { ready_groups = [] })

  unfoldable pub visit : ℕ → HashMap ℕ (ExecutionGroup F) → Progress → Result Stop Progress
  visit zero groups p = err out_of_fuel
  visit (suc fuel) groups p =
      let rest = visit_round groups p >>= visit fuel groups in
      if is_empty p.ready_groups && is_empty p.ready_files then ok p else rest

  unfoldable pub find_unreached :
      (dependency_of : String → String)
      → HashMap ℕ (ExecutionGroup F)
      → HashSet ℕ
      → HashMap ℕ ℕ
      → Result Stop (Unit {0})
  find_unreached dependency_of groups known [] = ok tt
  find_unreached dependency_of groups known ((group_uuid, zero) ∷ counts) =
      find_unreached dependency_of groups known counts
  find_unreached dependency_of groups known ((group_uuid, suc count) ∷ counts) = do
    group ← or_panic (HashMap.get group_uuid groups)
    _ ← find_missing (dependency_of group.description) (dependencies group) known
    err (rejected (cycle_detected group.description))

unfoldable pub check_executions : List ℕ → HashSet ℕ → Result Stop (Unit {0})
check_executions [] known = ok tt
check_executions (exec ∷ execs) known =
    let rest = check_executions execs known in
    if HashSet.contains exec known then rest else err (rejected (missing_execution exec))

-- The number of groups that still wait for a file.
unfoldable pub waiting : HashMap ℕ ℕ → ℕ
waiting [] = 0
waiting ((_, zero) ∷ counts) = waiting counts
waiting ((_, suc n) ∷ counts) = suc (waiting counts)

abbrev pub nothing_known : Progress
nothing_known = record {
  dependencies = [];
  num_dependencies = [];
  known_files = [];
  known_execs = [];
  ready_groups = [];
  ready_files = [];
}

module _ {F : Type 0} where
  -- What `check_dag` knows before the visit.
  unfoldable pub collect : ExecutionDagData F → Result Stop Progress
  collect dag = do
    p ← add_groups dag.execution_groups nothing_known
    add_provided (HashMap.keys dag.provided_files) p

  -- `check_dag`. `dependency_of` is the text `Dependency of '...'`.
  unfoldable pub check_dag :
      (dependency_of : String → String)
      → ExecutionDagData F
      → ExecutionDagWatchSet
      → Result Stop (Unit {0})
  check_dag dependency_of dag callbacks = do
    p ← collect dag
    q ←
        visit (suc (suc (waiting p.num_dependencies + length p.ready_groups))) dag.execution_groups
          p
    _ ← find_unreached dependency_of dag.execution_groups q.known_files q.num_dependencies
    _ ← find_missing "File required by a callback" callbacks.files q.known_files
    check_executions callbacks.executions q.known_execs

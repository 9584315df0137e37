-- ===== src/CheckDag/Adding.antt =====
-- task-maker-exec/src/check_dag.rs: the first part of `check_dag`, which collects the groups and the
-- files of the DAG.
use task_maker_rust.Base.{
  ℕ, Option, none, some, List, [], ◌∷◌, ◌++◌, if◌then◌else◌, Result, ok, err, ◌>>=◌, is_empty,
  length,
}
use task_maker_rust.Base.Tests.{nat_eq, nat_beq}
use task_maker_rust.Base.HashMap
use task_maker_rust.Base.HashMap.{HashMap}
use task_maker_rust.Base.HashSet
use task_maker_rust.Base.HashSet.{HashSet}
use task_maker_rust.Dag.Group.{ExecutionGroup, Fifo, dependencies, outputs}
use task_maker_rust.CheckDag.Errors.{
  Stop, rejected, duplicate_file_uuid, duplicate_fifo_uuid, duplicate_execution_uuid, empty_group,
  Progress,
}

abbrev pub or_empty : Option (List ℕ) → List ℕ
or_empty none = []
or_empty (some groups) = groups

-- The closure `add_dependency`, for each dependency of a group.
unfoldable pub add_dependencies : ℕ → List ℕ → HashMap ℕ (List ℕ) → HashMap ℕ (List ℕ)
add_dependencies group [] deps = deps
add_dependencies group (file ∷ files) deps =
    add_dependencies group files
      (HashMap.insert file (or_empty (HashMap.get file deps) ++ group ∷ []) deps)

-- The pipes of a group, with those that came before them.
unfoldable pub check_fifos : List Fifo → HashSet ℕ → Result Stop (HashSet ℕ)
check_fifos [] seen = ok seen
check_fifos (fifo ∷ fifos) seen =
    let rest = check_fifos fifos (HashSet.insert fifo.uuid seen) in
    if HashSet.contains fifo.uuid seen then err (rejected (duplicate_fifo_uuid fifo.uuid)) else rest

unfoldable pub add_outputs : List ℕ → HashSet ℕ → Result Stop (HashSet ℕ)
add_outputs [] known = ok known
add_outputs (out ∷ outs) known =
    let rest = add_outputs outs (HashSet.insert out known) in
    if HashSet.contains out known then err (rejected (duplicate_file_uuid out)) else rest

module _ {F : Type 0} where
  -- One round of the loop over the groups, of the group under the key `group_uuid`.
  unfoldable pub add_group : ℕ × ExecutionGroup F → Progress → Result Stop Progress
  add_group (group_uuid, group) p =
      if is_empty group.executions
      then err (rejected (empty_group group_uuid))
      else (check_fifos group.fifo [] >>= λ _.
          if HashSet.contains group.uuid p.known_execs
          then err (rejected (duplicate_execution_uuid group.uuid))
          else (add_outputs (outputs group) p.known_files >>= λ files.
              let count = length (dependencies group) in
              ok (record p {
                dependencies = add_dependencies group_uuid (dependencies group) p.dependencies;
                num_dependencies = HashMap.insert group_uuid count p.num_dependencies;
                known_files = files;
                known_execs = HashSet.insert group.uuid p.known_execs;
                ready_groups =
                    if nat_beq count 0 then p.ready_groups ++ group_uuid ∷ [] else p.ready_groups;
              })))

  unfoldable pub add_groups : HashMap ℕ (ExecutionGroup F) → Progress → Result Stop Progress
  add_groups [] p = ok p
  add_groups (group ∷ groups) p = add_group group p >>= add_groups groups

-- The loop over the provided files.
unfoldable pub add_provided : List ℕ → Progress → Result Stop Progress
add_provided [] p = ok p
add_provided (uuid ∷ uuids) p =
    let rest = add_provided uuids (record p {
      known_files = HashSet.insert uuid p.known_files;
      ready_files = p.ready_files ++ uuid ∷ [];
    }) in
    if HashSet.contains uuid p.known_files then err (rejected (duplicate_file_uuid uuid)) else rest

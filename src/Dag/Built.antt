-- ===== src/Dag/Built.antt =====
-- The operations of task-maker-dag/src that build a DAG: lemmas.
use task_maker_rust.Base.{
  ℕ, ◌≡◌, refl, sym, subst, inl, inr, some, bind-eq-ok, String, true, Option, none, List, [], ◌∷◌,
  ok, All, arith,
}
use task_maker_rust.Base.Tests.{nat_eq, string_eq, Option-cases, Bool-cases}
use task_maker_rust.Base.HashMap
use task_maker_rust.Base.HashMap.{HashMap}
use task_maker_rust.Base.HashSet
use task_maker_rust.Base.HashSet.{HashSet}
use task_maker_rust.Dag.Execution.{Execution, ExecutionOutputBehaviour, capture, File}
use task_maker_rust.Dag.Group.{except, ExecutionGroup}
use task_maker_rust.Dag.Data.{ExecutionDagData, add_execution_group}
use task_maker_rust.Dag.Config.{
  add_execution, group_of_execution, check_tags, collect_tags, try_from,
}
use task_maker_rust.Dag.Builders.{capture_with, output, capture_stdout}

capture_with_again :
    (f g : File) (limit limit' : Option ℕ) (behaviour : ExecutionOutputBehaviour)
    → (capture_with g limit' (capture_with f limit behaviour).1).0
      ≡ (capture_with f limit behaviour).0
unfolding capture_with
capture_with_again f g limit limit' (capture file old) = refl
capture_with_again f g limit limit' _ = refl

module _ {F : Type 0} where
  -- Each group stands under its own identifier, and has the configuration of the DAG.
  abbrev pub IsBuilt : ExecutionDagData F → Type 0
  IsBuilt dag = All (λ p. (p.0 ≡ (p.1).uuid) × ((p.1).config ≡ dag.config)) dag.execution_groups

  -- A DAG whose groups stand under their own identifiers and have its configuration stays one when
  -- a group or an execution is added, and the group of the added execution is found under the
  -- identifier that is returned.
  pub add_execution-IsBuilt :
      (half : F) (uuid : ℕ) (dag : ExecutionDagData F) (exec : Execution F)
      (group : ExecutionGroup F)
      → IsBuilt dag
      → IsBuilt (add_execution_group dag group)
        × IsBuilt (add_execution half uuid dag exec).1
        × ((found : ExecutionGroup F) × (HashMap.get
                (add_execution half uuid dag exec).0
                ((add_execution half uuid dag exec).1).execution_groups
              ≡ some found)
            × (found.executions ≡ exec ∷ []))
  unfolding add_execution_group add_execution group_of_execution
  add_execution-IsBuilt half uuid dag exec group h =
      let P = λ (p : ℕ × ExecutionGroup F). (p.0 ≡ (p.1).uuid) × ((p.1).config ≡ dag.config) in
      (
        HashMap.All-insert P group.uuid (record group { config = dag.config }) dag.execution_groups
            (refl, refl) h,
        HashMap.All-insert P uuid
            (record (group_of_execution half uuid exec) { config = dag.config })
            dag.execution_groups (refl, refl) h,
        (
          record (group_of_execution half uuid exec) { config = dag.config },
          HashMap.get-insert_self uuid _ dag.execution_groups,
          refl,
        ),
      )

  output_found :
      (g : File) (path : String) (file : File) (exec : Execution F)
      → HashMap.get path exec.output_files ≡ some file
      → output g path exec ≡ (file, exec)
  unfolding output
  output_found g path file exec at = rw (output, at) refl

  output_new :
      (g : File) (path : String) (exec : Execution F)
      → HashMap.get path exec.output_files ≡ none
      → output g path exec
        ≡ (g, record exec { output_files = HashMap.insert path g exec.output_files })
  unfolding output
  output_new g path exec at = rw (output, at) refl

  -- A second call of `output` for the same path returns the file of the first call and changes
  -- nothing, whatever new file it is given, and a second call of `capture_stdout` returns the file
  -- of the first.
  pub output-output :
      (f g : File) (path : String) (limit limit' : Option ℕ) (exec : Execution F)
      → (output g path (output f path exec).1 ≡ output f path exec)
        × ((capture_stdout g limit' (capture_stdout f limit exec).1).0
            ≡ (capture_stdout f limit exec).0)
  unfolding output capture_stdout capture_with
  output-output f g path limit limit' exec = (
    elim (Option-cases (HashMap.get path exec.output_files)) [
      | inl new ↦
          rw (output_new f path exec new)
            (output_found g path f _ (HashMap.get-insert_self path f exec.output_files))
      | inr (file, old) ↦ rw (output_found f path file exec old) (output_found g path file exec old)
    ],
    capture_with_again f g limit limit' exec.stdout,
  )

-- The tags of an accepted list are valid.
check_tags-valid :
    (valid tags : List String)
    → check_tags valid tags ≡ ok tt
    → All (λ tag. HashSet.contains tag valid ≡ true) tags
unfolding check_tags
check_tags-valid valid [] h = tt
check_tags-valid valid (tag ∷ tags) h = elim (Bool-cases (HashSet.contains tag valid)) [
  | inl known ↦ (known, check_tags-valid valid tags (rw (known, check_tags) at h))
  | inr unknown ↦ absurd (ground (arith, unknown))
]

-- Where `CacheMode::try_from` accepts exceptions, they are the tags of the given list, and each is
-- a valid tag.
pub try_from-valid :
    (split : String → List String) (conf : Option (Option String)) (valid set : List String)
    → try_from split conf valid ≡ ok (except set)
    → All (λ tag. HashSet.contains tag valid ≡ true) set
      × ((list : String) × (conf ≡ some (some list)) × (set ≡ collect_tags (split list)))
unfolding try_from
try_from-valid split none valid set h = cc
try_from-valid split (some none) valid set h = cc
try_from-valid split (some (some list)) valid set h =
    let (_, checked, made) = bind-eq-ok (check_tags valid (collect_tags (split list))) _ h in
    let same : collect_tags (split list) ≡ set = cc in
    (
      subst (All (λ tag. HashSet.contains tag valid ≡ true)) same
          (check_tags-valid valid (collect_tags (split list)) checked),
      (list, refl, sym same),
    )

-- ===== src/Dag/Tests.antt =====
-- The operations that build a DAG, on the sample DAG.
use task_maker_rust.Base.{
  ℕ, String, ◌≡◌, refl, Option, none, some, List, [], ◌∷◌, err, ◌>>=◌, All, true,
}
use task_maker_rust.Base.HashMap
use task_maker_rust.Base.HashMap.{HashMap}
use task_maker_rust.Base.HashSet
use task_maker_rust.Base.Tests.{string_eq, nat_eq}
use task_maker_rust.Samples.{dag, solution}
use task_maker_rust.Dag.Execution.{Execution, File, local, new_execution}
use task_maker_rust.Dag.Group.{ExecutionGroup}
use task_maker_rust.Dag.Data.{add_execution_group}
use task_maker_rust.Dag.Config.{add_execution, check_tags, collect_tags, try_from}
use task_maker_rust.Dag.Builders.{output, capture_stdout}
use task_maker_rust.Dag.Built.{IsBuilt, add_execution-IsBuilt, output-output, try_from-valid}

abbrev checker : Execution ℕ
checker = new_execution "checker" (local "check")

abbrev first : File
first = record { uuid = 20; description = "first" }

abbrev second : File
second = record { uuid = 21; description = "second" }

dag-IsBuilt : IsBuilt dag
dag-IsBuilt = ((refl, refl), ((refl, refl), tt))

add_execution-IsBuilt_example :
    IsBuilt (add_execution_group dag solution)
    × IsBuilt (add_execution 0 3 dag checker).1
    × ((found : ExecutionGroup ℕ) × (HashMap.get
            (add_execution 0 3 dag checker).0
            ((add_execution 0 3 dag checker).1).execution_groups
          ≡ some found)
        × (found.executions ≡ checker ∷ []))
add_execution-IsBuilt_example = add_execution-IsBuilt 0 3 dag checker solution dag-IsBuilt

output-output_example :
    (output second "out.txt" (output first "out.txt" checker).1 ≡ output first "out.txt" checker)
    × ((capture_stdout second none (capture_stdout first none checker).1).0
        ≡ (capture_stdout first none checker).0)
output-output_example = output-output first second "out.txt" none none checker

-- A text without a comma.
abbrev split : String → List String
split list = list ∷ []

try_from-valid_example :
    All (λ (tag : String). HashSet.contains tag ("checking" ∷ []) ≡ true) ("checking" ∷ [])
    × ((list : String) × (◌≡◌ {A = Option (Option String)}
          (some (some "checking"))
          (some (some list)))
        × (("checking" ∷ []) ≡ collect_tags (split list)))
unfolding HashSet.contains HashSet.insert try_from check_tags collect_tags ◌>>=◌
try_from-valid_example =
    try_from-valid split (some (some "checking")) ("checking" ∷ []) ("checking" ∷ []) refl

try_from_invalid : try_from split (some (some "other")) ("checking" ∷ []) ≡ err "other"
unfolding HashSet.contains HashSet.insert try_from check_tags collect_tags ◌>>=◌
try_from_invalid = refl

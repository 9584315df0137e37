-- ===== src/Ui/Checked.antt =====
-- ioi/ui_state.rs: `UIState::run_solution_checks` for one check and one subtask.
use task_maker_rust.Base.{ℕ, Bool, ◌≡◌, ◌⊎◌, Option, none, some, List, String}
use task_maker_rust.Base.Options.{◌>>=◌, map_all}
use task_maker_rust.Base.Tests.{nat_eq, string_eq}
use task_maker_rust.Base.HashMap
use task_maker_rust.Base.HashSet
use task_maker_rust.Base.HashMap.{HashMap}
use task_maker_rust.Scoring.Checks.{TestcaseEvaluationResult, SolutionCheckResult, check}
use task_maker_rust.Scoring.Outcomes.{expected}
use task_maker_rust.Ui.Status.{SolutionTestcaseEvaluationState, result_of}
use task_maker_rust.Ui.State.{UiState, SolutionEvaluationState}

-- The check on the results, where each testcase has one.
unfoldable pub check_results :
    SolutionCheckResult → Option (List TestcaseEvaluationResult) → Option Bool
check_results result none = none
check_results result (some results) = some (check result results)

module _ {F : Type 0} where
  -- `(&solution_result.testcases[testcase_id].status).into()`, where a missing key is a panic.
  unfoldable pub status_of :
      HashMap ℕ (SolutionTestcaseEvaluationState F) → ℕ → Option (Option TestcaseEvaluationResult)
  unfolding HashMap.get result_of
  status_of states testcase = elim (HashMap.get testcase states) [
    | none ↦ none
    | some state ↦ some (result_of state.status)
  ]

  -- `success` of a check on a subtask with these testcases, or none where it is not reported.
  unfoldable pub check_subtask :
      SolutionCheckResult → String → List ℕ → UiState F → Option (Option Bool)
  unfolding HashMap.get map_all status_of check_results
  check_subtask result solution testcases s = elim (HashMap.get solution s.evaluations) [
    | none ↦ some none
    | some eval ↦ do
      results ← map_all (status_of eval.testcases) testcases
      some (check_results result (map_all (λ r. r) results))
  ]

  -- What is reported of a check, by the documentation of the check.
  abbrev pub Reported :
      SolutionCheckResult → List ℕ → SolutionEvaluationState F → Option Bool → Type 0
  Reported result testcases eval outcome =
      (statuses : List (Option TestcaseEvaluationResult)) × (map_all (status_of eval.testcases)
          testcases
        ≡ some statuses)
      × (((map_all (λ r. r) statuses ≡ none) × (outcome ≡ none))
          ⊎ ((results : List TestcaseEvaluationResult) × (map_all (λ r. r) statuses ≡ some results)
              × (outcome ≡ some (expected result results))))

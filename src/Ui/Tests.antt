-- ===== src/Ui/Tests.antt =====
-- The state of the user interface on a task of one subtask, with scores of natural numbers.
use task_maker_rust.Base.{ℕ, ◌≡◌, refl, true, false, ◌⊎◌, String, Option, none, some, [], ◌∷◌}
use task_maker_rust.Base.Tests.{nat_eq, nat_beq, string_eq}
use task_maker_rust.Base.HashMap
use task_maker_rust.Base.HashSet
use task_maker_rust.Ui.Status.{
  Comparisons, TestcaseEvaluationStatus, SolutionTestcaseEvaluationState, started, has_completed,
  result_of, score_message, runtime_error, manager_succeeded,
}
use task_maker_rust.Ui.State.{
  Task, UiState, SolutionEvaluationState, pending_evaluation, ioi_generation, ioi_testcase_score,
  ioi_validation, apply, new_state, with_generation, with_validation, evaluation_of,
}
use task_maker_rust.Ui.Applied.{apply-IsComplete, new_state-IsComplete}
use task_maker_rust.Ui.Judged.{result_of_score, score_message-has_completed}
use task_maker_rust.Ui.Known.{IsComplete, Covers}
use task_maker_rust.Ui.Checked.{check_subtask}
use task_maker_rust.Scoring.Checks.{
  TestcaseEvaluationResult, SolutionCheckResult, check, check_each, any_less, contains_result,
  minimals,
}

instance abbrev nat_comparisons : Comparisons ℕ
nat_comparisons = record {
  is_zero = λ n. nat_beq n 0;
  is_full = λ n. nat_beq n 1;
  is_tiny = λ n. nat_beq n 0;
}

abbrev task : Task
task = record {
  subtasks = (3, record { id = 3; testcases_owned = 0 ∷ 1 ∷ [] }) ∷ [];
  testcases = (0, 0) ∷ (1, 1) ∷ [];
}

new_state-IsComplete_example :
    IsComplete (new_state {F = ℕ} task)
    × ((solution : String) → Covers task (evaluation_of solution (new_state {F = ℕ} task)))
new_state-IsComplete_example = new_state-IsComplete task

apply-IsComplete_example :
    (t : UiState ℕ) × (apply (ioi_testcase_score 3 1 "sol.cpp" 1 "Correct") (new_state task)
      ≡ some t)
    × IsComplete t
unfolding new_state HashSet.contains
apply-IsComplete_example =
    apply-IsComplete (ioi_testcase_score 3 1 "sol.cpp" 1 "Correct") (new_state task)
      (new_state-IsComplete task).0 refl

abbrev scored_evaluation : SolutionEvaluationState ℕ
scored_evaluation = record {
  score = none;
  subtasks = (3, record { score = none; normalized_score = none }) ∷ [];
  testcases =
      (0, pending_evaluation)
      ∷ (
        1,
        record {
          score = some 1;
          status = TestcaseEvaluationStatus.accepted "Correct";
          results = [];
          checker = none;
        },
      )
      ∷ [];
}

abbrev scored_state : UiState ℕ
unfolding new_state
scored_state = record (new_state task) { evaluations = ("sol.cpp", scored_evaluation) ∷ [] }

reported :
    check_subtask SolutionCheckResult.accepted "sol.cpp" (1 ∷ []) scored_state ≡ some (some true)
unfolding check_subtask check scored_state check_each any_less contains_result minimals
reported = refl

abbrev crashed : SolutionTestcaseEvaluationState ℕ
crashed = record { score = none; status = runtime_error; results = []; checker = none }

score_message-has_completed_example :
    ((score_message 1 "Correct" crashed).score ≡ some 1)
    × (has_completed (score_message 1 "Correct" crashed).status ≡ true)
    × (has_completed crashed.status ≡ false
        → result_of (score_message 1 "Correct" crashed).status ≡ some (result_of_score {F = ℕ} 1))
    × (has_completed crashed.status ≡ true
        → ((score_message 1 "Correct" crashed).status ≡ crashed.status)
          ⊎ ((crashed.status ≡ runtime_error)
              × (nat_beq 1 0 ≡ true)
              × (manager_succeeded crashed.results ≡ true)
              × (result_of (score_message 1 "Correct" crashed).status
                  ≡ some TestcaseEvaluationResult.wrong_answer)))
score_message-has_completed_example = score_message-has_completed 1 "Correct" crashed

-- A generation of a testcase that no subtask has is a panic, a validation of it is not.
unknown_generation : apply {F = ℕ} (ioi_generation 3 2 started) (new_state task) ≡ none
unfolding apply new_state with_generation HashMap.get
unknown_generation = refl

unknown_validation :
    apply {F = ℕ} (ioi_validation 3 2 started) (new_state task) ≡ some (new_state task)
unfolding apply new_state with_validation HashMap.get
unknown_validation = refl

-- ===== src/Ui/Judged.antt =====
-- ioi/ui_state.rs: the status of a testcase that gets a score.
use task_maker_rust.Base.{
  false, ◌⊎◌, inl, inr, if◌then◌else◌, true, ◌≡◌, refl, not, ◌&&◌, some, String, arith,
}
use Prim.Native.String.{◌++◌}
use task_maker_rust.Base.Tests.{nat_eq, string_eq, if_ind}
use task_maker_rust.Ui.Status.{
  runtime_error, SolutionTestcaseEvaluationState, score_message, Comparisons, has_completed,
  result_of, of_score_status, from_score, is_runtime_error, manager_succeeded, accepted,
  wrong_answer, partial_score, TestcaseEvaluationStatus, ScoreStatus,
}
use task_maker_rust.Scoring.Checks.{TestcaseEvaluationResult}

has_completed-scored :
    (status : ScoreStatus) (message : String)
    → has_completed (of_score_status status message) ≡ true
unfolding of_score_status has_completed
has_completed-scored wrong_answer message = refl
has_completed-scored accepted message = refl
has_completed-scored partial_score message = refl

has_completed-wrong_answer :
    (message : String) → has_completed (TestcaseEvaluationStatus.wrong_answer message) ≡ true
unfolding has_completed
has_completed-wrong_answer message = refl

result_of-wrong_answer :
    (message : String)
    → result_of (TestcaseEvaluationStatus.wrong_answer message)
      ≡ some TestcaseEvaluationResult.wrong_answer
unfolding result_of
result_of-wrong_answer message = refl

eq-of_is_runtime_error :
    (status : TestcaseEvaluationStatus) → is_runtime_error status ≡ true → status ≡ runtime_error
unfolding is_runtime_error
eq-of_is_runtime_error runtime_error h = refl
eq-of_is_runtime_error _ h = cc

module _ {F : Type 0} ⦃cmp : Comparisons F⦄ where
  -- The result that a score between zero and one stands for.
  abbrev pub result_of_score : F → TestcaseEvaluationResult
  result_of_score x =
      if cmp.is_zero x
      then TestcaseEvaluationResult.wrong_answer
      else if cmp.is_full x
      then TestcaseEvaluationResult.accepted
      else TestcaseEvaluationResult.partial

  result_of-scored :
      (x : F) (message : String)
      → result_of (of_score_status (from_score x) message) ≡ some (result_of_score x)
  unfolding from_score of_score_status result_of
  result_of-scored x message = ground arith

  -- After the score of a testcase the testcase has that score and has completed. Where it had not
  -- completed, its result is now the one that the score stands for: wrong answer for zero,
  -- accepted for a full score, partial else. Where it had completed, its status is as before,
  -- unless it was a runtime error with a tiny score and a manager that succeeded: then it is as
  -- before or a wrong answer.
  pub score_message-has_completed :
      (x : F) (message : String) (state : SolutionTestcaseEvaluationState F)
      → ((score_message x message state).score ≡ some x)
        × (has_completed (score_message x message state).status ≡ true)
        × (has_completed state.status ≡ false
            → result_of (score_message x message state).status ≡ some (result_of_score x))
        × (has_completed state.status ≡ true
            → ((score_message x message state).status ≡ state.status)
              ⊎ ((state.status ≡ runtime_error)
                  × (cmp.is_tiny x ≡ true)
                  × (manager_succeeded state.results ≡ true)
                  × (result_of (score_message x message state).status
                      ≡ some TestcaseEvaluationResult.wrong_answer)))
  unfolding score_message
  score_message-has_completed x message state = (
    ground arith,
    if_ind (λ (t : SolutionTestcaseEvaluationState F). has_completed t.status ≡ true)
        (not (has_completed state.status)) (λ _. has_completed-scored (from_score x) message)
        λ over.
          if_ind (λ (t : SolutionTestcaseEvaluationState F). has_completed t.status ≡ true)
            (is_runtime_error state.status && cmp.is_tiny x && manager_succeeded state.results)
            (λ _. has_completed-wrong_answer (message ++ " maybe caused by runtime error"))
            (λ _. ground (arith, over)),
    λ going. rw going (result_of-scored x message),
    λ over. rw over (
        if_ind
          (λ (t : SolutionTestcaseEvaluationState F).
            (t.status ≡ state.status)
            ⊎ ((state.status ≡ runtime_error)
                × (cmp.is_tiny x ≡ true)
                × (manager_succeeded state.results ≡ true)
                × (result_of t.status ≡ some TestcaseEvaluationResult.wrong_answer)))
          (is_runtime_error state.status && cmp.is_tiny x && manager_succeeded state.results)
          (λ crashed. inr (
            eq-of_is_runtime_error state.status (ground (arith, crashed)),
            ground (arith, crashed),
            ground (arith, crashed),
            result_of-wrong_answer (message ++ " maybe caused by runtime error"),
          ))
          (λ _. inl refl)),
  )

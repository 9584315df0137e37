-- ===== src/Ui/Status.antt =====
-- ioi/ui_state.rs and testcase_score_status.rs: the status of a testcase, and how a message about
-- it changes it. `none` is a panic of an assertion or an index.
use task_maker_rust.Base.{
  Bool, true, false, not, ◌&&◌, Option, none, some, List, [], ◌∷◌, String, if◌then◌else◌, all, map,
}
use Prim.Native.String.{◌++◌}
use task_maker_rust.Dag.Execution.{ExecutionStatus, ExecutionResult, is_success}
use task_maker_rust.Scoring.Checks.{TestcaseEvaluationResult}

-- The comparisons of scores, which are those of `f64`.
pub record Comparisons (F : Type 0) : Type 0 where
  -- `score == 0.0`
  pub is_zero : F → Bool
  -- `(score - 1.0).abs() < 0.001`
  pub is_full : F → Bool
  -- `score <= 1e-8`
  pub is_tiny : F → Bool

pub data ScoreStatus : Type 0 where
  accepted partial_score wrong_answer : ScoreStatus

pub data TestcaseGenerationStatus : Type 0 where
  pending generating generated validating validated : TestcaseGenerationStatus
  solving solved failed skipped : TestcaseGenerationStatus

pub data TestcaseEvaluationStatus : Type 0 where
  pending solving solved checking : TestcaseEvaluationStatus
  accepted wrong_answer partial : String → TestcaseEvaluationStatus
  time_limit_exceeded wall_time_limit_exceeded : TestcaseEvaluationStatus
  memory_limit_exceeded runtime_error failed skipped : TestcaseEvaluationStatus

-- `UIExecutionStatus`; which worker has started it is left out.
pub data UiExecutionStatus (F : Type 0) : Type 0 where
  pending started : UiExecutionStatus F
  done : List (ExecutionResult F) → UiExecutionStatus F
  skipped : UiExecutionStatus F

-- `Option<TestcaseEvaluationResult>::from`
unfoldable pub result_of : TestcaseEvaluationStatus → Option TestcaseEvaluationResult
result_of (accepted s) = some TestcaseEvaluationResult.accepted
result_of (partial s) = some TestcaseEvaluationResult.partial
result_of (wrong_answer s) = some TestcaseEvaluationResult.wrong_answer
result_of time_limit_exceeded = some TestcaseEvaluationResult.time_limit_exceeded
result_of wall_time_limit_exceeded = some TestcaseEvaluationResult.wall_time_limit_exceeded
result_of memory_limit_exceeded = some TestcaseEvaluationResult.memory_limit_exceeded
result_of runtime_error = some TestcaseEvaluationResult.runtime_error
result_of _ = none

unfoldable pub has_completed : TestcaseEvaluationStatus → Bool
has_completed pending = false
has_completed solving = false
has_completed solved = false
has_completed checking = false
has_completed _ = true

pub record TestcaseGenerationState (F : Type 0) : Type 0 where
  pub status : TestcaseGenerationStatus
  pub generation : Option (ExecutionResult F)
  pub validation : Option (ExecutionResult F)
  pub solution : Option (List (ExecutionResult F))

pub record SolutionTestcaseEvaluationState (F : Type 0) : Type 0 where
  pub score : Option F
  pub status : TestcaseEvaluationStatus
  pub results : List (Option (ExecutionResult F))
  pub checker : Option (ExecutionResult F)

-- A skipped step leaves a failed one failed.
unfoldable pub skip : TestcaseGenerationStatus → TestcaseGenerationStatus
skip failed = failed
skip _ = skipped

-- `unreachable!` for a success, which `last_failure` does not find.
unfoldable pub of_failure : ExecutionStatus → TestcaseEvaluationStatus
of_failure ExecutionStatus.success = solved
of_failure (ExecutionStatus.failure e) = runtime_error
of_failure (ExecutionStatus.return_code c) = runtime_error
of_failure (ExecutionStatus.signal s name) = runtime_error
of_failure ExecutionStatus.time_limit_exceeded = time_limit_exceeded
of_failure ExecutionStatus.sys_time_limit_exceeded = time_limit_exceeded
of_failure ExecutionStatus.wall_time_limit_exceeded = wall_time_limit_exceeded
of_failure ExecutionStatus.memory_limit_exceeded = memory_limit_exceeded
of_failure (ExecutionStatus.internal_error e) = failed

module _ {F : Type 0} where
  unfoldable pub generation_message :
      UiExecutionStatus F → TestcaseGenerationState F → Option (TestcaseGenerationState F)
  unfolding is_success
  generation_message pending gen = some (record gen { status = pending })
  generation_message started gen = some (record gen { status = generating })
  generation_message (done (result ∷ [])) gen = some (record gen {
    status = if is_success result.status then generated else failed;
    generation = some result;
  })
  generation_message (done _) gen = none
  generation_message skipped gen = some (record gen { status = skipped })

  unfoldable pub validation_message :
      UiExecutionStatus F → TestcaseGenerationState F → Option (TestcaseGenerationState F)
  unfolding is_success skip
  validation_message pending gen = some (record gen { status = pending })
  validation_message started gen = some (record gen { status = validating })
  validation_message (done (result ∷ [])) gen = some (record gen {
    status = if is_success result.status then validated else failed;
    validation = some result;
  })
  validation_message (done _) gen = none
  validation_message skipped gen = some (record gen { status = skip gen.status })

  unfoldable pub solution_message :
      UiExecutionStatus F → TestcaseGenerationState F → TestcaseGenerationState F
  unfolding is_success skip
  solution_message pending gen = record gen { status = pending }
  solution_message started gen = record gen { status = solving }
  solution_message (done result) gen = record gen {
    status = if all (λ r. is_success r.status) result then solved else failed;
    solution = some result;
  }
  solution_message skipped gen = record gen { status = skip gen.status }

  -- The last status that is no success: the solution comes after its manager.
  unfoldable pub last_failure : List (ExecutionResult F) → Option ExecutionStatus
  unfolding is_success
  last_failure [] = none
  last_failure (result ∷ rest) = elim (last_failure rest) [
    | some status ↦ some status
    | none ↦ if is_success result.status then none else some result.status
  ]

  unfoldable pub evaluated : List (ExecutionResult F) → TestcaseEvaluationStatus
  unfolding last_failure of_failure
  evaluated results = elim (last_failure results) [
    | some status ↦ of_failure status
    | none ↦ solved
  ]

  unfoldable pub evaluation_message :
      UiExecutionStatus F → SolutionTestcaseEvaluationState F → SolutionTestcaseEvaluationState F
  unfolding evaluated
  evaluation_message pending testcase = testcase
  evaluation_message started testcase = record testcase { status = solving }
  evaluation_message (done results) testcase = record testcase {
    status = evaluated results;
    results = map some results;
  }
  evaluation_message skipped testcase = record testcase { status = skipped }

  unfoldable pub checker_message :
      UiExecutionStatus F
      → SolutionTestcaseEvaluationState F
      → Option (SolutionTestcaseEvaluationState F)
  checker_message started testcase = some (record testcase { status = checking })
  checker_message (done []) testcase = none
  checker_message (done (result ∷ rest)) testcase = some (record testcase { checker = some result })
  checker_message _ testcase = some testcase

  -- `testcase.results[0].as_ref().is_some_and(...)`, where there is more than one result.
  unfoldable pub manager_succeeded : List (Option (ExecutionResult F)) → Bool
  unfolding is_success
  manager_succeeded (some result ∷ other ∷ rest) = is_success result.status
  manager_succeeded _ = false

unfoldable pub is_runtime_error : TestcaseEvaluationStatus → Bool
is_runtime_error runtime_error = true
is_runtime_error _ = false

unfoldable pub of_score_status : ScoreStatus → String → TestcaseEvaluationStatus
of_score_status wrong_answer message = wrong_answer message
of_score_status accepted message = accepted message
of_score_status partial_score message = partial message

module _ {F : Type 0} ⦃cmp : Comparisons F⦄ where
  -- `ScoreStatus::from_score(score, 1.0)`
  unfoldable pub from_score : F → ScoreStatus
  from_score score =
      if cmp.is_zero score
      then wrong_answer
      else if cmp.is_full score
      then accepted
      else partial_score

  unfoldable pub score_message :
      F → String → SolutionTestcaseEvaluationState F → SolutionTestcaseEvaluationState F
  unfolding from_score has_completed is_runtime_error manager_succeeded of_score_status
  score_message score message testcase =
      let scored : SolutionTestcaseEvaluationState F = record testcase { score = some score } in
      if not (has_completed testcase.status)
      then record scored { status = of_score_status (from_score score) message }
      else if is_runtime_error testcase.status
          && cmp.is_tiny score
          && manager_succeeded testcase.results
      then record scored { status = wrong_answer (message ++ " maybe caused by runtime error") }
      else scored

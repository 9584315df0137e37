-- ===== src/Scoring/Checks.antt =====
-- solution.rs: the result of a testcase, and the checks that a solution names.
use task_maker_rust.Base.{
  ℕ, Bool, true, false, ◌&&◌, ◌||◌, Option, none, some, List, [], ◌∷◌, String, ltb, if◌then◌else◌,
}
use task_maker_rust.Base.Lists.{is_empty}
use task_maker_rust.Base.Tests.{nat_beq, string_eq, ◌==◌}

pub data TestcaseEvaluationResult : Type 0 where
  accepted partial wrong_answer time_limit_exceeded wall_time_limit_exceeded :
      TestcaseEvaluationResult
  memory_limit_exceeded runtime_error : TestcaseEvaluationResult

unfoldable pub proj : TestcaseEvaluationResult → ℕ
proj accepted = 2
proj partial = 1
proj _ = 0

-- The derived `==` compares the discriminants.
unfoldable pub discriminant : TestcaseEvaluationResult → ℕ
discriminant accepted = 0
discriminant partial = 1
discriminant wrong_answer = 2
discriminant time_limit_exceeded = 3
discriminant wall_time_limit_exceeded = 4
discriminant memory_limit_exceeded = 5
discriminant runtime_error = 6

unfoldable pub result_beq : TestcaseEvaluationResult → TestcaseEvaluationResult → Bool
unfolding discriminant
result_beq a b = nat_beq (discriminant a) (discriminant b)

pub data Comparison : Type 0 where
  less equal greater : Comparison

unfoldable pub partial_cmp : TestcaseEvaluationResult → TestcaseEvaluationResult → Option Comparison
unfolding proj result_beq
partial_cmp a b =
    if ltb (proj b) (proj a)
    then some greater
    else if ltb (proj a) (proj b)
    then some less
    else if nat_beq (proj a) (proj b) && result_beq a b
    then some equal
    else none

-- `a < b`
unfoldable pub is_less : TestcaseEvaluationResult → TestcaseEvaluationResult → Bool
unfolding partial_cmp
is_less a b = elim (partial_cmp a b) [ some less ↦ true | _ ↦ false ]

pub data SolutionCheckResult : Type 0 where
  accepted partial_score wrong_answer time_limit_exceeded : SolutionCheckResult
  wall_time_limit_exceeded memory_limit_exceeded runtime_error zero : SolutionCheckResult

unfoldable pub from_str : String → Option SolutionCheckResult
from_str s =
    if s == "accepted"
    then some accepted
    else if s == "partial-score"
    then some partial_score
    else if s == "wrong-answer"
    then some wrong_answer
    else if s == "time-limit-exceeded"
    then some time_limit_exceeded
    else if s == "wall-time-limit-exceeded"
    then some wall_time_limit_exceeded
    else if s == "memory-limit-exceeded"
    then some memory_limit_exceeded
    else if s == "runtime-error"
    then some runtime_error
    else if s == "zero"
    then some zero
    else none

unfoldable pub sorted_all : List SolutionCheckResult
sorted_all =
    accepted ∷ partial_score ∷ wrong_answer ∷ time_limit_exceeded ∷ wall_time_limit_exceeded
    ∷ memory_limit_exceeded ∷ runtime_error ∷ zero ∷ []

unfoldable pub as_str : SolutionCheckResult → String
as_str accepted = "accepted"
as_str partial_score = "partial-score"
as_str wrong_answer = "wrong-answer"
as_str time_limit_exceeded = "time-limit-exceeded"
as_str wall_time_limit_exceeded = "wall-time-limit-exceeded"
as_str memory_limit_exceeded = "memory-limit-exceeded"
as_str runtime_error = "runtime-error"
as_str zero = "zero"

unfoldable pub as_compact_str : SolutionCheckResult → String
as_compact_str accepted = "AC"
as_compact_str partial_score = "PS"
as_compact_str wrong_answer = "WA"
as_compact_str time_limit_exceeded = "TLE"
as_compact_str wall_time_limit_exceeded = "WTLE"
as_compact_str memory_limit_exceeded = "MLE"
as_compact_str runtime_error = "RE"
as_compact_str zero = "ZR"

unfoldable pub minimals : SolutionCheckResult → List TestcaseEvaluationResult
minimals accepted = accepted ∷ []
minimals partial_score = partial ∷ []
minimals wrong_answer = wrong_answer ∷ []
minimals time_limit_exceeded = time_limit_exceeded ∷ []
minimals wall_time_limit_exceeded = wall_time_limit_exceeded ∷ []
minimals memory_limit_exceeded = memory_limit_exceeded ∷ []
minimals runtime_error = runtime_error ∷ []
minimals zero =
    wrong_answer ∷ time_limit_exceeded ∷ wall_time_limit_exceeded ∷ memory_limit_exceeded
    ∷ runtime_error ∷ []

unfoldable pub contains_result : TestcaseEvaluationResult → List TestcaseEvaluationResult → Bool
unfolding result_beq
contains_result r [] = false
contains_result r (x ∷ xs) = result_beq x r || contains_result r xs

-- `outcomes.iter().any(|o| o < outcome)`
unfoldable pub any_less : TestcaseEvaluationResult → List TestcaseEvaluationResult → Bool
unfolding is_less
any_less r [] = false
any_less r (x ∷ xs) = is_less x r || any_less r xs

-- The loop of `check` over the outcomes, of which `rest` are left.
unfoldable pub check_each :
    SolutionCheckResult → List TestcaseEvaluationResult → List TestcaseEvaluationResult → Bool
check_each check outcomes [] = false
check_each check outcomes (outcome ∷ rest) =
    if any_less outcome outcomes
    then check_each check outcomes rest
    else if contains_result outcome (minimals check)
    then true
    else check_each check outcomes rest

unfoldable pub check : SolutionCheckResult → List TestcaseEvaluationResult → Bool
check result outcomes =
    if check_each result outcomes outcomes
    then true
    else is_empty outcomes && contains_result accepted (minimals result)

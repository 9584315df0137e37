-- ===== src/Scoring/Outcomes.antt =====
-- The checks of solution.rs against what their documentation says of the outcomes.
use task_maker_rust.Base.{
  ◌≡◌, ◌≤◌, refl, sym, ◌∙◌, subst, Bool, true, ◌&&◌, ◌||◌, some, List, [], ◌∷◌, arith, all,
}
use task_maker_rust.Base.Lists.{is_empty}
use task_maker_rust.Scoring.Checks.{
  TestcaseEvaluationResult, proj, discriminant, result_beq, SolutionCheckResult, minimals,
  contains_result, check_each, check, from_str, as_str, accepted, partial, wrong_answer,
  time_limit_exceeded, wall_time_limit_exceeded, memory_limit_exceeded, runtime_error,
  partial_score, zero,
}
use task_maker_rust.Scoring.Minimal.{
  any, any-congr, contains_result-any, is_minimal, check_each-any, any_less-partial,
  any_less-accepted, result_beq-sym, proj-rank, check-any,
}

-- What the documentation of each check says.
unfoldable pub expected : SolutionCheckResult → List TestcaseEvaluationResult → Bool
expected accepted outcomes = all (result_beq accepted) outcomes
expected partial_score outcomes =
    contains_result partial outcomes
    && all (λ r. result_beq accepted r || result_beq partial r) outcomes
expected wrong_answer outcomes = contains_result wrong_answer outcomes
expected time_limit_exceeded outcomes = contains_result time_limit_exceeded outcomes
expected wall_time_limit_exceeded outcomes = contains_result wall_time_limit_exceeded outcomes
expected memory_limit_exceeded outcomes = contains_result memory_limit_exceeded outcomes
expected runtime_error outcomes = contains_result runtime_error outcomes
expected zero outcomes =
    contains_result wrong_answer outcomes
    || contains_result time_limit_exceeded outcomes
    || contains_result wall_time_limit_exceeded outcomes
    || contains_result memory_limit_exceeded outcomes
    || contains_result runtime_error outcomes

-- The name that `as_str` gives a check is parsed by `from_str` to that check.
pub from_str-as_str : (result : SolutionCheckResult) → from_str (as_str result) ≡ some result
unfolding from_str as_str
from_str-as_str accepted = refl
from_str-as_str partial_score = refl
from_str-as_str wrong_answer = refl
from_str-as_str time_limit_exceeded = refl
from_str-as_str wall_time_limit_exceeded = refl
from_str-as_str memory_limit_exceeded = refl
from_str-as_str runtime_error = refl
from_str-as_str zero = refl

check-one :
    (result : SolutionCheckResult) (r : TestcaseEvaluationResult)
    (outcomes : List TestcaseEvaluationResult)
    → minimals result ≡ r ∷ []
    → 2 ≤ discriminant r
    → check result outcomes ≡ contains_result r outcomes
unfolding contains_result result_beq
check-one result r outcomes only low = ground (
  arith,
  check-any result outcomes (
      subst (λ m. (x : TestcaseEvaluationResult) → contains_result x m ≡ true → 2 ≤ discriminant x)
        (sym only) (λ x named. ground (arith, named, low))),
  any-congr (λ x. contains_result x (minimals result)) (λ x. result_beq x r)
      (λ x. subst (λ m. contains_result x m ≡ result_beq x r) (sym only) (ground arith)) outcomes,
  contains_result-any r outcomes,
)

any-and :
    (b : Bool) (q : TestcaseEvaluationResult → Bool) (xs : List TestcaseEvaluationResult)
    → any (λ r. b && q r) xs ≡ (b && any q xs)
any-and b q [] = ground arith
any-and b q (x ∷ xs) = ground (arith, any-and b q xs)

accepted_minimal :
    (outcomes : List TestcaseEvaluationResult) (r : TestcaseEvaluationResult)
    → is_minimal accepted outcomes r ≡ (all (result_beq accepted) outcomes && result_beq r accepted)
unfolding contains_result minimals result_beq discriminant
accepted_minimal outcomes accepted = ground (arith, any_less-accepted outcomes)
accepted_minimal outcomes r = ground arith

partial_minimal :
    (outcomes : List TestcaseEvaluationResult) (r : TestcaseEvaluationResult)
    → is_minimal partial_score outcomes r
      ≡ (all (λ x. result_beq accepted x || result_beq partial x) outcomes && result_beq r partial)
unfolding contains_result minimals result_beq discriminant
partial_minimal outcomes partial = ground (arith, any_less-partial outcomes)
partial_minimal outcomes r = ground arith

each-accepted :
    (outcomes : List TestcaseEvaluationResult)
    → check_each accepted outcomes outcomes
      ≡ (all (result_beq accepted) outcomes && any (λ r. result_beq r accepted) outcomes)
each-accepted outcomes =
    check_each-any accepted outcomes outcomes
    ∙ any-congr _ _ (accepted_minimal outcomes) outcomes
    ∙ any-and (all (result_beq accepted) outcomes) (λ r. result_beq r accepted) outcomes

each-partial_score :
    (outcomes : List TestcaseEvaluationResult)
    → check_each partial_score outcomes outcomes ≡ (
        all (λ x. result_beq accepted x || result_beq partial x) outcomes
        && any (λ r. result_beq r partial) outcomes)
each-partial_score outcomes =
    check_each-any partial_score outcomes outcomes
    ∙ any-congr _ _ (partial_minimal outcomes) outcomes
    ∙ any-and (all (λ x. result_beq accepted x || result_beq partial x) outcomes)
        (λ r. result_beq r partial) outcomes

-- Outcomes that are all accepted have one, or there is none.
all-accepted :
    (outcomes : List TestcaseEvaluationResult)
    → all (result_beq accepted) outcomes ≡ true
    → (is_empty outcomes || any (λ r. result_beq r accepted) outcomes) ≡ true
all-accepted [] h = refl
all-accepted (x ∷ xs) h = ground (arith, h, result_beq-sym accepted x)

empty-accepted :
    (outcomes : List TestcaseEvaluationResult)
    → is_empty outcomes ≡ true
    → all (result_beq accepted) outcomes ≡ true
empty-accepted [] h = refl
empty-accepted (x ∷ xs) h = cc

check-accepted :
    (outcomes : List TestcaseEvaluationResult)
    → check accepted outcomes ≡ all (result_beq accepted) outcomes
unfolding check minimals contains_result
check-accepted outcomes =
    ground (arith, each-accepted outcomes, all-accepted outcomes, empty-accepted outcomes)

check-partial_score :
    (outcomes : List TestcaseEvaluationResult)
    → check partial_score outcomes ≡ expected partial_score outcomes
unfolding check minimals contains_result expected
check-partial_score outcomes =
    ground (arith, each-partial_score outcomes, contains_result-any partial outcomes)

any_zero :
    (outcomes : List TestcaseEvaluationResult)
    → any (λ r. contains_result r (minimals zero)) outcomes ≡ expected zero outcomes
unfolding contains_result minimals expected
any_zero [] = refl
any_zero (x ∷ xs) = ground (
  arith,
  any_zero xs,
  result_beq-sym x wrong_answer,
  result_beq-sym x time_limit_exceeded,
  result_beq-sym x wall_time_limit_exceeded,
  result_beq-sym x memory_limit_exceeded,
  result_beq-sym x runtime_error,
)

zero_low :
    (r : TestcaseEvaluationResult) → contains_result r (minimals zero) ≡ true → 2 ≤ discriminant r
unfolding contains_result minimals result_beq discriminant
zero_low r h = ground (arith, h)

low : (r : TestcaseEvaluationResult) → proj r ≡ 0 → 2 ≤ discriminant r
low r h = omega (arith, h, proj-rank r)

-- `check`, which looks for a minimal outcome that the check names, decides what the documentation
-- of each variant of `SolutionCheckResult` says: `accepted` that all outcomes are accepted, so
-- that it holds of no outcomes, `partial-score` that one is partial and each other accepted or
-- partial, each other check that one of the outcomes is among those it names.
pub check-eq-expected :
    (result : SolutionCheckResult) (outcomes : List TestcaseEvaluationResult)
    → check result outcomes ≡ expected result outcomes
unfolding expected proj minimals
check-eq-expected accepted outcomes = check-accepted outcomes
check-eq-expected partial_score outcomes = check-partial_score outcomes
check-eq-expected wrong_answer outcomes =
    check-one wrong_answer wrong_answer outcomes refl (low wrong_answer refl)
check-eq-expected time_limit_exceeded outcomes =
    check-one time_limit_exceeded time_limit_exceeded outcomes refl (low time_limit_exceeded refl)
check-eq-expected wall_time_limit_exceeded outcomes =
    check-one wall_time_limit_exceeded wall_time_limit_exceeded outcomes refl
      (low wall_time_limit_exceeded refl)
check-eq-expected memory_limit_exceeded outcomes =
    check-one memory_limit_exceeded memory_limit_exceeded outcomes refl
      (low memory_limit_exceeded refl)
check-eq-expected runtime_error outcomes =
    check-one runtime_error runtime_error outcomes refl (low runtime_error refl)
check-eq-expected zero outcomes = check-any zero outcomes zero_low ∙ any_zero outcomes

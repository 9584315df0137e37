-- ===== src/Scoring/Minimal.antt =====
-- The outcomes that `check` of solution.rs finds minimal.
use task_maker_rust.Base.{
  ℕ, ◌≡◌, ◌≤◌, ◌-◌, refl, ◌⊎◌, Bool, true, false, not, ◌&&◌, ◌||◌, List, [], ◌∷◌, ltb,
  if◌then◌else◌, arith, all, inl, inr,
}
use task_maker_rust.Base.Lists.{is_empty}
use task_maker_rust.Base.Tests.{Bool-cases}
use task_maker_rust.Scoring.Checks.{
  TestcaseEvaluationResult, proj, discriminant, is_less, partial_cmp, result_beq,
  SolutionCheckResult, minimals, contains_result, any_less, check_each, check, accepted, partial,
  wrong_answer, time_limit_exceeded, wall_time_limit_exceeded, memory_limit_exceeded, runtime_error,
}

pub is_less-eq : (a b : TestcaseEvaluationResult) → is_less a b ≡ ltb (proj a) (proj b)
unfolding is_less partial_cmp
is_less-eq a b = ground arith

abbrev pub any : (TestcaseEvaluationResult → Bool) → List TestcaseEvaluationResult → Bool
any p [] = false
any p (x ∷ xs) = p x || any p xs

pub any-congr :
    (p q : TestcaseEvaluationResult → Bool)
    → ((r : TestcaseEvaluationResult) → p r ≡ q r)
    → (xs : List TestcaseEvaluationResult) → any p xs ≡ any q xs
any-congr p q h [] = refl
any-congr p q h (x ∷ xs) = ground (arith, h x, any-congr p q h xs)

pub contains_result-any :
    (r : TestcaseEvaluationResult) (xs : List TestcaseEvaluationResult)
    → contains_result r xs ≡ any (λ x. result_beq x r) xs
unfolding contains_result
contains_result-any r [] = refl
contains_result-any r (x ∷ xs) = ground (arith, contains_result-any r xs)

-- An outcome that the check names and that no outcome is below.
abbrev pub is_minimal :
    SolutionCheckResult → List TestcaseEvaluationResult → TestcaseEvaluationResult → Bool
is_minimal result outcomes r = not (any_less r outcomes) && contains_result r (minimals result)

-- The two tests of the loop in one.
pub if_or :
    (a b : Bool) {p q : Bool}
    → p ≡ q
    → (if a then p else if b then true else p) ≡ ((not a && b) || q)
if_or true b h = h
if_or false true h = refl
if_or false false h = h

pub check_each-any :
    (result : SolutionCheckResult) (outcomes rest : List TestcaseEvaluationResult)
    → check_each result outcomes rest ≡ any (is_minimal result outcomes) rest
unfolding check_each
check_each-any result outcomes [] = refl
check_each-any result outcomes (x ∷ rest) =
    if_or (any_less x outcomes) (contains_result x (minimals result))
      (check_each-any result outcomes rest)

pub any_less-lowest :
    (r : TestcaseEvaluationResult) (outcomes : List TestcaseEvaluationResult)
    → proj r ≡ 0
    → any_less r outcomes ≡ false
unfolding any_less
any_less-lowest r [] h = refl
any_less-lowest r (x ∷ xs) h = ground (arith, is_less-eq x r, any_less-lowest r xs h)

pub any_less-partial :
    (outcomes : List TestcaseEvaluationResult)
    → any_less partial outcomes
      ≡ not (all (λ r. result_beq accepted r || result_beq partial r) outcomes)
unfolding any_less result_beq proj discriminant
any_less-partial [] = refl
any_less-partial (accepted ∷ xs) = ground (arith, is_less-eq accepted partial, any_less-partial xs)
any_less-partial (partial ∷ xs) = ground (arith, is_less-eq partial partial, any_less-partial xs)
any_less-partial (x ∷ xs) = ground (arith, is_less-eq x partial)

pub any_less-accepted :
    (outcomes : List TestcaseEvaluationResult)
    → any_less accepted outcomes ≡ not (all (result_beq accepted) outcomes)
unfolding any_less result_beq proj discriminant
any_less-accepted [] = refl
any_less-accepted (accepted ∷ xs) =
    ground (arith, is_less-eq accepted accepted, any_less-accepted xs)
any_less-accepted (x ∷ xs) = ground (arith, is_less-eq x accepted)

-- The checks that name results of zero points only.
pub check-lowest :
    (result : SolutionCheckResult) (outcomes rest : List TestcaseEvaluationResult)
    → ((r : TestcaseEvaluationResult) → contains_result r (minimals result) ≡ true → proj r ≡ 0)
    → check_each result outcomes rest ≡ any (λ r. contains_result r (minimals result)) rest
check-lowest result outcomes rest low = ground (
  arith,
  check_each-any result outcomes rest,
  any-congr (is_minimal result outcomes) (λ r. contains_result r (minimals result))
      (λ r. ground (arith, low r, any_less-lowest r outcomes)) rest,
)

pub result_beq-sym : (a b : TestcaseEvaluationResult) → result_beq a b ≡ result_beq b a
unfolding result_beq
result_beq-sym a b = ground arith

-- The rank of a result, from its discriminant.
abbrev pub rank : ℕ → ℕ
rank d = 2 - d

pub proj-rank : (r : TestcaseEvaluationResult) → proj r ≡ rank (discriminant r)
unfolding proj discriminant
proj-rank accepted = refl
proj-rank partial = refl
proj-rank wrong_answer = refl
proj-rank time_limit_exceeded = refl
proj-rank wall_time_limit_exceeded = refl
proj-rank memory_limit_exceeded = refl
proj-rank runtime_error = refl

pub discriminant-accepted : discriminant accepted ≡ 0
unfolding discriminant
discriminant-accepted = refl

-- The checks that name results of zero points only ask whether there is one.
pub check-any :
    (result : SolutionCheckResult) (outcomes : List TestcaseEvaluationResult)
    → ((r : TestcaseEvaluationResult)
        → contains_result r (minimals result) ≡ true
        → 2 ≤ discriminant r)
    → check result outcomes ≡ any (λ r. contains_result r (minimals result)) outcomes
unfolding check
check-any result outcomes low =
    if_false (is_empty outcomes)
      (no_accepted (Bool-cases (contains_result accepted (minimals result))))
      (check-lowest result outcomes outcomes λ r named. omega (arith, low r named, proj-rank r))
  where
    if_false : {a b c : Bool} (e : Bool) → b ≡ false → a ≡ c → (if a then true else e && b) ≡ c
    if_false e p q = ground (arith, p, q)

    no_accepted :
        (contains_result accepted (minimals result) ≡ true)
          ⊎ (contains_result accepted (minimals result) ≡ false)
        → contains_result accepted (minimals result) ≡ false
    no_accepted (inl named) = absurd (omega (arith, discriminant-accepted, low accepted named))
    no_accepted (inr absent) = absent

-- ===== src/Scoring/Tests.antt =====
-- Scores on natural numbers: a solution on a task of three subtasks, one of them empty, and the
-- theorems there.
use task_maker_rust.Base.{
  ℕ, suc, ◌+◌, ◌*◌, ◌≤◌, ◌≡◌, refl, Bool, true, false, none, some, [], ◌∷◌, if◌then◌else◌, arith,
  all, is_empty, ltb, leb,
}
use task_maker_rust.Base.Results.{Result, ok, err, ◌>>=◌}
use task_maker_rust.Base.Tests.{nat_eq}
use task_maker_rust.Base.HashMap
use task_maker_rust.Base.HashSet
use task_maker_rust.Scoring.Checks.{
  accepted, partial, time_limit_exceeded, partial_score, proj, discriminant, result_beq,
  partial_cmp, is_less, from_str, as_str, minimals, contains_result, any_less, check_each, check,
}
use task_maker_rust.Scoring.Outcomes.{expected, check-eq-expected, from_str-as_str}
use task_maker_rust.Scoring.Numbers.{Score}
use task_maker_rust.Scoring.Aggregate.{min, min_from, sum_count, aggregate}
use task_maker_rust.Scoring.Bounds.{ScoreLaws, IsNormal, aggregate-IsNormal}
use task_maker_rust.Scoring.Manager.{
  ScoreManager, IoiTask, SubtaskInfo, ScoreError, ioi_subtask_score, send, with_score, scores_of,
  normalize, compute, total, announce, record_score, score_subtask, score_each, score, score_empty,
  collect, new_manager,
}
use task_maker_rust.Scoring.Consistent.{IsConsistent}
use task_maker_rust.Scoring.Scored.{score-IsConsistent}
use task_maker_rust.Scoring.Started.{HasTestcases}
use task_maker_rust.Scoring.Filled.{Starts, new_manager-IsConsistent}
use task_maker_rust.Scoring.Announced.{IsAnnounced, announcements, score-IsAnnounced}
use task_maker_rust.Scoring.Opening.{new_manager-IsAnnounced}

instance abbrev nat_score : Score ℕ
nat_score = record {
  zero = 0;
  one = 1;
  add = λ a b. a + b;
  mul = λ a b. a * b;
  div = λ a b. if leb b a then 1 else 0;
  of_count = λ n. n;
  greater = λ a b. some (ltb b a);
}

program : Unit {0}
unfolding HashMap.get HashMap.insert HashSet.contains proj discriminant result_beq partial_cmp
    is_less from_str as_str minimals contains_result any_less check_each check expected min_from
    sum_count aggregate send with_score scores_of normalize compute total announce record_score
    score_subtask score_each score score_empty collect new_manager ◌>>=◌
program = tt

-- A run over the time limit and a partial answer: the expected result is the former.
check-eq-expected_example :
    check time_limit_exceeded (partial ∷ time_limit_exceeded ∷ accepted ∷ [])
    ≡ expected time_limit_exceeded (partial ∷ time_limit_exceeded ∷ accepted ∷ [])
check-eq-expected_example =
    check-eq-expected time_limit_exceeded (partial ∷ time_limit_exceeded ∷ accepted ∷ [])

checked : check partial_score (partial ∷ time_limit_exceeded ∷ accepted ∷ []) ≡ false
unfolding program
checked = refl

from_str-as_str_example : from_str (as_str partial_score) ≡ some partial_score
from_str-as_str_example = from_str-as_str partial_score

-- The fifth subtask has no testcase, the seventh shares one with the sixth.
abbrev task : IoiTask ℕ
task = record {
  subtasks =
      (5, record { id = 5; max_score = 10; testcases = [] })
      ∷ (6, record { id = 6; max_score = 30; testcases = 0 ∷ 1 ∷ [] })
      ∷ (7, record { id = 7; max_score = 60; testcases = 1 ∷ [] })
      ∷ [];
  testcases = 0 ∷ 1 ∷ [];
  testcase_score_aggregator = min;
}

abbrev manager : ScoreManager ℕ
manager = record {
  solution = "solution.cpp";
  subtask_scores = (5, some 10) ∷ (6, none) ∷ (7, none) ∷ [];
  max_subtask_scores = (5, 10) ∷ (6, 30) ∷ (7, 60) ∷ [];
  testcase_scores = (0, none) ∷ (1, none) ∷ [];
  subtask_testcases = (5, []) ∷ (6, 0 ∷ 1 ∷ []) ∷ (7, 1 ∷ []) ∷ [];
  aggregator = min;
  sent = ioi_subtask_score 5 "solution.cpp" 10 1 ∷ [];
  receiver = true;
}

started : new_manager task "solution.cpp" true ≡ ok manager
unfolding program
started = refl

nat_laws : ScoreLaws ℕ nat_score
nat_laws = record {
  below = λ a b. a ≤ b;
  below_refl = λ a. omega arith;
  below_trans = λ h k. omega (arith, h, k);
  zero_below_one = omega arith;
  compared = λ a b _ _. (ltb b a, refl, comparison a b (ltb b a) refl);
  add_below = λ h k. omega (arith, h, k);
  zero_below_add = λ h k. omega arith;
  of_count_zero = omega arith;
  of_count_suc = λ n _. refl;
  div_bounds = λ n {a} _ low high. (omega arith, at_most_one (leb (suc n) a));
}
  where
    comparison : (a b : ℕ) (above : Bool) → ltb b a ≡ above → if above then b ≤ a else a ≤ b
    comparison a b true h = ground (arith, h)
    comparison a b false h = ground (arith, h)

    at_most_one : (b : Bool) → (if b then 1 else 0) ≤ 1
    at_most_one true = omega arith
    at_most_one false = omega arith

aggregate-IsNormal_example :
    (y : ℕ) × (aggregate min (1 ∷ 0 ∷ 1 ∷ []) ≡ some y) × IsNormal nat_laws y
unfolding nat_laws
aggregate-IsNormal_example =
    aggregate-IsNormal nat_laws min (1 ∷ 0 ∷ 1 ∷ [])
      ((omega arith, omega arith), ((omega arith, omega arith), ((omega arith, omega arith), tt)))
      (omega arith)

abbrev IsCovered : ℕ × SubtaskInfo ℕ → Type 0
IsCovered e =
    (tc : ℕ) → HashSet.contains tc e.1.testcases ≡ true → HashSet.contains tc task.testcases ≡ true

task-HasTestcases : HasTestcases task
unfolding program
task-HasTestcases st tc info known there =
    HashMap.All-get IsCovered st info task.subtasks
      ((λ c h. cc), ((λ c h. h), ((λ c h. ground (arith, h)), tt))) known tc there

new_manager-IsConsistent_example : IsConsistent manager × Starts task manager
new_manager-IsConsistent_example =
    new_manager-IsConsistent task "solution.cpp" true manager task-HasTestcases started

abbrev value_or : Result ScoreError (ScoreManager ℕ) → ScoreManager ℕ
value_or (ok m) = m
value_or (err e) = manager

-- The second testcase is scored, and with it the seventh subtask.
abbrev after_one : ScoreManager ℕ
after_one = value_or (score 6 1 1 "Correct" manager)

scored : score 6 1 1 "Correct" manager ≡ ok after_one
unfolding program
scored = refl

score-IsConsistent_example : IsConsistent after_one
unfolding program
score-IsConsistent_example =
    score-IsConsistent 6 1 1 "Correct" manager after_one refl new_manager-IsConsistent_example.0
      scored

new_manager-IsAnnounced_example :
    IsAnnounced manager
    × (announcements manager.sent
        ≡ (if all (λ e. is_empty (e.1).testcases) task.subtasks then 1 else 0))
unfolding program
new_manager-IsAnnounced_example =
    new_manager-IsAnnounced task "solution.cpp" true manager (refl, (refl, (refl, tt))) (λ e. cc)
      task-HasTestcases started

score-IsAnnounced_example : IsAnnounced after_one
score-IsAnnounced_example =
    score-IsAnnounced 6 1 1 "Correct" manager after_one new_manager-IsAnnounced_example.0 scored

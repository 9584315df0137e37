-- ===== src/Ui/State.antt =====
-- ioi/ui_state.rs: `UIState::apply` on the messages about generations, evaluations and scores.
-- `none` is the panic of an `expect` or an assertion. Compilations, booklets, diagnostics and the
-- status of the executor are left out.
use task_maker_rust.Base.{ℕ, Option, none, some, List, [], String, map}
use task_maker_rust.Base.Options.{◌>>=◌}
use task_maker_rust.Base.Tests.{nat_eq, string_eq}
use task_maker_rust.Base.HashMap
use task_maker_rust.Base.HashMap.{HashMap, values}
use task_maker_rust.Ui.Status.{
  UiExecutionStatus, TestcaseGenerationState, SolutionTestcaseEvaluationState, generation_message,
  validation_message, solution_message, evaluation_message, checker_message, score_message,
  Comparisons, pending,
}

-- The parts of a task that the state needs.
pub record SubtaskInfo : Type 0 where
  pub id : ℕ
  pub testcases_owned : List ℕ

pub record Task : Type 0 where
  pub subtasks : HashMap ℕ SubtaskInfo
  -- The id of each testcase, `TestcaseInfo::id`.
  pub testcases : HashMap ℕ ℕ

-- `task.subtasks.values()` and `task.testcases.values()`, of which the ids are used.
abbrev pub subtask_ids : Task → List ℕ
subtask_ids task = map (λ subtask. subtask.id) (values task.subtasks)

abbrev pub testcase_ids : Task → List ℕ
testcase_ids task = values task.testcases

pub record SolutionSubtaskEvaluationState (F : Type 0) : Type 0 where
  pub score : Option F
  pub normalized_score : Option F

pub record SolutionEvaluationState (F : Type 0) : Type 0 where
  pub score : Option F
  pub subtasks : HashMap ℕ (SolutionSubtaskEvaluationState F)
  pub testcases : HashMap ℕ (SolutionTestcaseEvaluationState F)

pub record UiState (F : Type 0) : Type 0 where
  pub task : Task
  pub generations : HashMap ℕ (HashMap ℕ (TestcaseGenerationState F))
  pub evaluations : HashMap String (SolutionEvaluationState F)

pub data UiMessage (F : Type 0) : Type 0 where
  ioi_generation ioi_validation ioi_solution :
      (subtask testcase : ℕ) (status : UiExecutionStatus F) → UiMessage F
  ioi_evaluation ioi_checker :
      (subtask testcase : ℕ) (solution : String) (status : UiExecutionStatus F) → UiMessage F
  ioi_testcase_score :
      (subtask testcase : ℕ) (solution : String) (score : F) (message : String) → UiMessage F
  ioi_subtask_score : (subtask : ℕ) (solution : String) (score normalized_score : F) → UiMessage F
  ioi_task_score : (solution : String) (score : F) → UiMessage F

module _ {F : Type 0} where
  abbrev pub pending_generation : TestcaseGenerationState F
  pending_generation = record {
    status = pending;
    generation = none;
    validation = none;
    solution = none;
  }

  abbrev pub pending_evaluation : SolutionTestcaseEvaluationState F
  pending_evaluation = record { score = none; status = pending; results = []; checker = none }

  unfoldable pub new_evaluation : Task → SolutionEvaluationState F
  new_evaluation task = record {
    score = none;
    subtasks =
        map (λ id. (id, record { score = none; normalized_score = none })) (subtask_ids task);
    testcases = map (λ id. (id, pending_evaluation)) (testcase_ids task);
  }

  unfoldable pub new_state : Task → UiState F
  new_state task = record {
    task = task;
    generations =
        map (λ e. (e.0, map (λ tc. (tc, pending_generation)) (e.1).testcases_owned)) task.subtasks;
    evaluations = [];
  }

  -- `generations.get_mut(subtask).expect(...).testcases.get_mut(testcase).expect(...)`
  unfoldable pub with_generation :
      ℕ
      → ℕ
      → (TestcaseGenerationState F → Option (TestcaseGenerationState F))
      → UiState F
      → Option (UiState F)
  unfolding HashMap.get HashMap.insert
  with_generation subtask testcase change s = do
    testcases ← HashMap.get subtask s.generations
    gen ← HashMap.get testcase testcases
    changed ← change gen
    some (record s {
      generations =
          HashMap.insert subtask (HashMap.insert testcase changed testcases) s.generations;
    })

  -- A validation of a testcase that the subtask does not own is ignored.
  unfoldable pub validate :
      ℕ
      → ℕ
      → UiExecutionStatus F
      → Option (TestcaseGenerationState F)
      → UiState F
      → Option (UiState F)
  unfolding with_generation validation_message
  validate subtask testcase status none s = some s
  validate subtask testcase status (some gen) s =
      with_generation subtask testcase (validation_message status) s

  unfoldable pub with_validation : ℕ → ℕ → UiExecutionStatus F → UiState F → Option (UiState F)
  unfolding HashMap.get validate
  with_validation subtask testcase status s = do
    testcases ← HashMap.get subtask s.generations
    validate subtask testcase status (HashMap.get testcase testcases) s

  -- `evaluations.entry(solution).or_insert_with(...)`
  unfoldable pub evaluation_of : String → UiState F → SolutionEvaluationState F
  unfolding HashMap.get new_evaluation
  evaluation_of solution s = elim (HashMap.get solution s.evaluations) [
    | none ↦ new_evaluation s.task
    | some eval ↦ eval
  ]

  abbrev pub set_evaluation : String → SolutionEvaluationState F → UiState F → UiState F
  set_evaluation solution eval s = record s {
    evaluations = HashMap.insert solution eval s.evaluations;
  }

  -- `eval.testcases.get_mut(testcase).expect(...)`
  unfoldable pub with_testcase :
      String
      → ℕ
      → (SolutionTestcaseEvaluationState F → Option (SolutionTestcaseEvaluationState F))
      → UiState F
      → Option (UiState F)
  unfolding HashMap.get HashMap.insert evaluation_of
  with_testcase solution testcase change s =
      let eval = evaluation_of solution s in
      do
        state ← HashMap.get testcase eval.testcases
        changed ← change state
        some (
            set_evaluation solution
              (record eval { testcases = HashMap.insert testcase changed eval.testcases }) s)

  unfoldable pub with_subtask : String → ℕ → F → F → UiState F → Option (UiState F)
  unfolding HashMap.get HashMap.insert evaluation_of
  with_subtask solution subtask score normalized_score s =
      let eval = evaluation_of solution s in
      do
        state ← HashMap.get subtask eval.subtasks
        some (
            set_evaluation solution
              (record eval {
                subtasks =
                    HashMap.insert subtask
                      (record { score = some score; normalized_score = some normalized_score })
                      eval.subtasks;
              })
              s)

module _ {F : Type 0} ⦃cmp : Comparisons F⦄ where
  unfoldable pub apply : UiMessage F → UiState F → Option (UiState F)
  unfolding HashMap.insert with_generation generation_message with_validation solution_message
      with_testcase evaluation_message checker_message score_message with_subtask evaluation_of
  apply (ioi_generation subtask testcase status) s =
      with_generation subtask testcase (generation_message status) s
  apply (ioi_validation subtask testcase status) s = with_validation subtask testcase status s
  apply (ioi_solution subtask testcase status) s =
      with_generation subtask testcase (λ gen. some (solution_message status gen)) s
  apply (ioi_evaluation subtask testcase solution status) s =
      with_testcase solution testcase (λ state. some (evaluation_message status state)) s
  apply (ioi_checker subtask testcase solution status) s =
      with_testcase solution testcase (checker_message status) s
  apply (ioi_testcase_score subtask testcase solution score message) s =
      with_testcase solution testcase (λ state. some (score_message score message state)) s
  apply (ioi_subtask_score subtask solution score normalized_score) s =
      with_subtask solution subtask score normalized_score s
  apply (ioi_task_score solution score) s =
      some (set_evaluation solution (record (evaluation_of solution s) { score = some score }) s)

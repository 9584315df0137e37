-- ===== src/Ui/Applied.antt =====
-- `UIState::apply` does not panic on the messages of a task.
use task_maker_rust.Base.{
  ℕ, true, ◌≡◌, refl, sym, ap, subst, Option, none, some, List, [], ◌∷◌, String, map,
}
use task_maker_rust.Base.Options.{bind-of_some}
use task_maker_rust.Base.Keyed.{map-get, get-of_keys}
use task_maker_rust.Base.Tests.{nat_eq, string_eq, is_some}
use task_maker_rust.Base.HashMap
use task_maker_rust.Base.HashSet
use task_maker_rust.Base.HashMap.{HashMap, contains_key}
use task_maker_rust.Dag.Execution.{ExecutionResult}
use task_maker_rust.Ui.Status.{
  UiExecutionStatus, TestcaseGenerationState, SolutionTestcaseEvaluationState, generation_message,
  validation_message, solution_message, evaluation_message, checker_message, score_message,
  Comparisons, pending, started, done, skipped,
}
use task_maker_rust.Ui.State.{
  SubtaskInfo, subtask_ids, testcase_ids, Task, UiState, UiMessage, ioi_generation, ioi_validation,
  ioi_solution, ioi_evaluation, ioi_checker, ioi_testcase_score, ioi_subtask_score, ioi_task_score,
  with_validation, validate, evaluation_of, apply, new_state, pending_generation,
}
use task_maker_rust.Ui.Known.{
  Covers, evaluation_of-Covers, IsComplete, Good, with_testcase-Good, with_subtask-Good,
  with_generation-Good, with_generation-Good_found, set_evaluation-IsComplete, evaluation_of-Covers,
  get-of_contains,
}

-- The subtask generates the testcase.
abbrev pub Owns : Task → ℕ → ℕ → Type 0
Owns task st tc =
    (info : SubtaskInfo) × (HashMap.get st task.subtasks ≡ some info)
    × (HashSet.contains tc info.testcases_owned ≡ true)

module _ {F : Type 0} where
  -- Generations and validations have one result.
  abbrev pub HasOneResult : UiExecutionStatus F → Type 0
  HasOneResult (done results) = (result : ExecutionResult F) × (results ≡ result ∷ [])
  HasOneResult _ = Unit {0}

  -- A checker that is done has a result.
  abbrev pub HasResult : UiExecutionStatus F → Type 0
  HasResult (done results) =
      (result : ExecutionResult F) × ((rest : List (ExecutionResult F)) × (results ≡ result ∷ rest))
  HasResult _ = Unit {0}

  -- The messages about the subtasks and testcases of the task.
  abbrev pub IsFor : Task → UiMessage F → Type 0
  IsFor task (ioi_generation st tc status) = Owns task st tc × HasOneResult status
  IsFor task (ioi_validation st tc status) =
      (contains_key st task.subtasks ≡ true) × HasOneResult status
  IsFor task (ioi_solution st tc status) = Owns task st tc
  IsFor task (ioi_evaluation st tc solution status) = HashSet.contains tc (testcase_ids task) ≡ true
  IsFor task (ioi_checker st tc solution status) =
      (HashSet.contains tc (testcase_ids task) ≡ true) × HasResult status
  IsFor task (ioi_testcase_score st tc solution x message) =
      HashSet.contains tc (testcase_ids task) ≡ true
  IsFor task (ioi_subtask_score st solution x y) = HashSet.contains st (subtask_ids task) ≡ true
  IsFor task (ioi_task_score solution x) = Unit {0}

  generation_message-some :
      (status : UiExecutionStatus F) (gen : TestcaseGenerationState F)
      → HasOneResult status
      → (changed : TestcaseGenerationState F) × (generation_message status gen ≡ some changed)
  unfolding generation_message
  generation_message-some pending gen h = (_, refl)
  generation_message-some started gen h = (_, refl)
  generation_message-some (done results) gen (result, e) = rw (e, generation_message) (_, refl)
  generation_message-some skipped gen h = (_, refl)

  validation_message-some :
      (status : UiExecutionStatus F) (gen : TestcaseGenerationState F)
      → HasOneResult status
      → (changed : TestcaseGenerationState F) × (validation_message status gen ≡ some changed)
  unfolding validation_message
  validation_message-some pending gen h = (_, refl)
  validation_message-some started gen h = (_, refl)
  validation_message-some (done results) gen (result, e) = rw (e, validation_message) (_, refl)
  validation_message-some skipped gen h = (_, refl)

  checker_message-some :
      (status : UiExecutionStatus F) (state : SolutionTestcaseEvaluationState F)
      → HasResult status
      → (changed : SolutionTestcaseEvaluationState F) × (checker_message status state
          ≡ some changed)
  unfolding checker_message
  checker_message-some pending state h = (_, refl)
  checker_message-some started state h = (_, refl)
  checker_message-some (done results) state (result, (rest, e)) = rw (e, checker_message) (_, refl)
  checker_message-some skipped state h = (_, refl)

  validate-Good :
      (st tc : ℕ) (status : UiExecutionStatus F) (s : UiState F)
      (testcases : HashMap ℕ (TestcaseGenerationState F))
      (found_gen : Option (TestcaseGenerationState F))
      → HasOneResult status
      → HashMap.get st s.generations ≡ some testcases
      → HashMap.get tc testcases ≡ found_gen
      → IsComplete s
      → Good (validate st tc status found_gen s)
  unfolding validate
  validate-Good st tc status s testcases none one found e h = (s, refl, h)
  validate-Good st tc status s testcases (some gen) one found e h =
      let (changed, changes) = validation_message-some status gen one in
      with_generation-Good_found st tc (validation_message status) testcases gen changed s found e
        changes h

  with_validation-Good :
      (st tc : ℕ) (status : UiExecutionStatus F) (s : UiState F)
      → HasOneResult status
      → contains_key st s.task.subtasks ≡ true
      → IsComplete s
      → Good (with_validation st tc status s)
  unfolding with_validation
  with_validation-Good st tc status s one known h =
      let (testcases, found) = get-of_contains st s.generations (h.2 st known) in
      subst Good
        (sym (
          bind-of_some (HashMap.get st s.generations)
            (λ m. validate st tc status (HashMap.get tc m) s) found))
        (validate-Good st tc status s testcases (HashMap.get tc testcases) one found refl h)

module _ {F : Type 0} ⦃cmp : Comparisons F⦄ where
  -- Where the state knows every testcase that a subtask of its task owns, and every subtask and
  -- testcase of its task in each evaluation, and the message is about a subtask or testcase of the
  -- task, with one result for a finished generation or validation and a result for a finished
  -- checker, `apply` gives a state without a panic, and that state knows them too.
  pub apply-IsComplete :
      (m : UiMessage F) (s : UiState F)
      → IsComplete s
      → IsFor s.task m
      → (t : UiState F) × (apply m s ≡ some t) × IsComplete t
  unfolding apply
  apply-IsComplete (ioi_generation st tc status) s h ((owned, known, there), one) =
      with_generation-Good st tc (generation_message status) owned s
        (λ gen. generation_message-some status gen one) known there h
  apply-IsComplete (ioi_validation st tc status) s h (known, one) =
      with_validation-Good st tc status s one known h
  apply-IsComplete (ioi_solution st tc status) s h (owned, known, there) =
      with_generation-Good st tc (λ gen. some (solution_message status gen)) owned s
        (λ gen. (solution_message status gen, refl)) known there h
  apply-IsComplete (ioi_evaluation st tc solution status) s h known =
      with_testcase-Good solution tc (λ state. some (evaluation_message status state)) s
        (λ state. (evaluation_message status state, refl)) known h
  apply-IsComplete (ioi_checker st tc solution status) s h (known, result) =
      with_testcase-Good solution tc (checker_message status) s
        (λ state. checker_message-some status state result) known h
  apply-IsComplete (ioi_testcase_score st tc solution x message) s h known =
      with_testcase-Good solution tc (λ state. some (score_message x message state)) s
        (λ state. (score_message x message state, refl)) known h
  apply-IsComplete (ioi_subtask_score st solution x y) s h known =
      with_subtask-Good solution st x y s known h
  apply-IsComplete (ioi_task_score solution x) s h known = (
    _,
    refl,
    set_evaluation-IsComplete solution (record (evaluation_of solution s) { score = some x }) s h
        (evaluation_of-Covers solution s h),
  )

  initial-IsComplete : (task : Task) → IsComplete (new_state {F = F} task)
  unfolding new_state HashSet.contains HashMap.get
  initial-IsComplete task = (
    (λ st tc info known there. (
      _,
      map-get (λ (i : SubtaskInfo). map (λ t. (t, pending_generation {F = F})) i.testcases_owned) st
          info task.subtasks known,
      ap is_some (get-of_keys (pending_generation {F = F}) tc info.testcases_owned there),
    )),
    (λ solution eval found. (λ tc there. cc, λ st there. cc)),
    λ st known.
        let (info, e) = get-of_contains st task.subtasks known in
        ap is_some (
          map-get
            (λ (i : SubtaskInfo). map (λ t. (t, pending_generation {F = F})) i.testcases_owned) st
            info task.subtasks e),
  )

  -- The state that `UIState::new` makes knows every subtask of its task and every testcase that
  -- one owns, and the evaluation that is made of any solution on its first message has each
  -- subtask and testcase of the task by its id.
  pub new_state-IsComplete :
      (task : Task)
      → IsComplete (new_state {F = F} task)
        × ((solution : String) → Covers task (evaluation_of solution (new_state {F = F} task)))
  unfolding new_state
  new_state-IsComplete task = (
    initial-IsComplete task,
    λ solution. evaluation_of-Covers solution (new_state task) (initial-IsComplete task),
  )

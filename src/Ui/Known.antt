-- ===== src/Ui/Known.antt =====
-- `UIState::apply` on messages about the subtasks and testcases of the task.
use task_maker_rust.Base.{
  ℕ, true, ◌≡◌, inl, inr, sym, ap, ◌∙◌, subst, Option, none, some, String, arith,
}
use mathlib.Core.Option.{some-injective}
use task_maker_rust.Base.Options.{◌>>=◌, bind-of_some}
use task_maker_rust.Base.Tests.{
  nat_eq, nat_beq, string_eq, nat_beq_iff, Option-cases, Bool-cases, is_some,
}
use task_maker_rust.Base.Keyed.{get-of_keys}
use task_maker_rust.Base.HashMap
use task_maker_rust.Base.HashSet
use task_maker_rust.Base.HashMap.{HashMap, contains_key, get-insert, contains_key-insert}
use task_maker_rust.Ui.Status.{TestcaseGenerationState, SolutionTestcaseEvaluationState}
use task_maker_rust.Ui.State.{
  SubtaskInfo, Task, subtask_ids, testcase_ids, UiState, SolutionSubtaskEvaluationState,
  SolutionEvaluationState, with_generation, evaluation_of, set_evaluation, new_evaluation,
  with_testcase, with_subtask, pending_evaluation,
}

pub get-of_contains :
    {A : Type 0} (k : ℕ) (m : HashMap ℕ A)
    → contains_key k m ≡ true
    → (a : A) × (HashMap.get k m ≡ some a)
get-of_contains k m h = elim (Option-cases (HashMap.get k m)) [
  | inl absent ↦ let gone = rw absent at h in cc
  | inr found ↦ found
]

module _ {F : Type 0} where
  -- An evaluation knows each subtask and testcase of the task.
  abbrev pub Covers : Task → SolutionEvaluationState F → Type 0
  Covers task eval =
      ((tc : ℕ)
        → HashSet.contains tc (testcase_ids task) ≡ true
        → contains_key tc eval.testcases ≡ true)
      × ((st : ℕ)
          → HashSet.contains st (subtask_ids task) ≡ true
          → contains_key st eval.subtasks ≡ true)

new_evaluation-Covers :
    (F : Type 0) (task : Task) → Covers {F = F} task (new_evaluation {F = F} task)
unfolding new_evaluation
new_evaluation-Covers F task = (
  λ tc there. ap is_some (get-of_keys pending_evaluation tc (testcase_ids task) there),
  λ st there.
      ap is_some (
        get-of_keys (record { score = none; normalized_score = none }) st (subtask_ids task) there),
)

module _ {F : Type 0} where
  -- The state knows each testcase of the task, where its subtask generates it and in each
  -- evaluation.
  abbrev pub IsComplete : UiState F → Type 0
  IsComplete s =
      ((st tc : ℕ) (info : SubtaskInfo)
        → HashMap.get st s.task.subtasks ≡ some info
        → HashSet.contains tc info.testcases_owned ≡ true
        → (testcases : HashMap ℕ (TestcaseGenerationState F)) × (HashMap.get st s.generations
            ≡ some testcases)
          × (contains_key tc testcases ≡ true))
      × ((solution : String) (eval : SolutionEvaluationState F)
          → HashMap.get solution s.evaluations ≡ some eval
          → Covers s.task eval)
      × ((st : ℕ) → contains_key st s.task.subtasks ≡ true → contains_key st s.generations ≡ true)

  pub evaluation_of-Covers :
      (solution : String) (s : UiState F) → IsComplete s → Covers s.task (evaluation_of solution s)
  unfolding evaluation_of
  evaluation_of-Covers solution s h = elim (Option-cases (HashMap.get solution s.evaluations)) [
    | inl absent ↦ rw (absent, evaluation_of) (new_evaluation-Covers F s.task)
    | inr (eval, found) ↦ rw (found, evaluation_of) (h.1 solution eval found)
  ]

  pub set_evaluation-IsComplete :
      (solution : String) (eval : SolutionEvaluationState F) (s : UiState F)
      → IsComplete s
      → Covers s.task eval
      → IsComplete (set_evaluation solution eval s)
  set_evaluation-IsComplete solution eval s h covers = (
    h.0,
    λ other e found. elim (HashMap.get-insert_cases solution other eval e s.evaluations found) [
      | inl (same, it) ↦ subst (Covers s.task) it covers
      | inr old ↦ h.1 other e old
    ],
    h.2,
  )

  abbrev pub Good : Option (UiState F) → Type 0
  Good o = (t : UiState F) × (o ≡ some t) × IsComplete t

  pub with_testcase-Good :
      (solution : String) (testcase : ℕ)
      (change : SolutionTestcaseEvaluationState F → Option (SolutionTestcaseEvaluationState F))
      (s : UiState F)
      → ((state : SolutionTestcaseEvaluationState F)
          → (changed : SolutionTestcaseEvaluationState F) × (change state ≡ some changed))
      → HashSet.contains testcase (testcase_ids s.task) ≡ true
      → IsComplete s
      → Good (with_testcase solution testcase change s)
  unfolding with_testcase
  with_testcase-Good solution testcase change s fine known h =
      let covers = evaluation_of-Covers solution s h in
      let eval = evaluation_of solution s in
      let (state, found) = get-of_contains testcase eval.testcases (covers.0 testcase known) in
      let (changed, e) = fine state in
      let result : SolutionTestcaseEvaluationState F → UiState F = λ c.
        set_evaluation solution
          (record eval { testcases = HashMap.insert testcase c eval.testcases }) s in
      (
        result changed,
        bind-of_some (HashMap.get testcase eval.testcases)
              (λ st. change st >>= λ c. some (result c)) found
            ∙ bind-of_some (change state) (λ c. some (result c)) e,
        set_evaluation-IsComplete solution
            (record eval { testcases = HashMap.insert testcase changed eval.testcases }) s h
            (
              λ tc there.
                  contains_key-insert testcase tc changed eval.testcases (covers.0 tc there),
              covers.1,
            ),
      )

  pub with_subtask-Good :
      (solution : String) (subtask : ℕ) (score normalized_score : F) (s : UiState F)
      → HashSet.contains subtask (subtask_ids s.task) ≡ true
      → IsComplete s
      → Good (with_subtask solution subtask score normalized_score s)
  unfolding with_subtask
  with_subtask-Good solution subtask score normalized_score s known h =
      let covers = evaluation_of-Covers solution s h in
      let eval = evaluation_of solution s in
      let (state, found) = get-of_contains subtask eval.subtasks (covers.1 subtask known) in
      let scored : SolutionSubtaskEvaluationState F = record {
        score = some score;
        normalized_score = some normalized_score;
      } in
      let result : UiState F =
        set_evaluation solution
          (record eval { subtasks = HashMap.insert subtask scored eval.subtasks }) s in
      (
        result,
        bind-of_some (HashMap.get subtask eval.subtasks) (λ _. some result) found,
        set_evaluation-IsComplete solution
            (record eval { subtasks = HashMap.insert subtask scored eval.subtasks }) s h
            (
              covers.0,
              λ st there. contains_key-insert subtask st scored eval.subtasks (covers.1 st there),
            ),
      )

  -- A changed testcase of a subtask keeps the testcases that the generations know.
  insert-generations :
      (st tc : ℕ) (gen : TestcaseGenerationState F)
      (testcases : HashMap ℕ (TestcaseGenerationState F)) (s : UiState F)
      → HashMap.get st s.generations ≡ some testcases
      → IsComplete s
      → IsComplete (record s {
        generations = HashMap.insert st (HashMap.insert tc gen testcases) s.generations;
      })
  insert-generations st tc gen testcases s found h = (
    λ j t owned known there.
        let (old, e, contained) = h.0 j t owned known there in
        elim (Bool-cases (nat_beq st j)) [
          | inl same ↦ (
            HashMap.insert tc gen testcases,
            ground (arith, same, get-insert st j (HashMap.insert tc gen testcases) s.generations),
            contains_key-insert tc t gen testcases (
                subst (λ (m : HashMap ℕ (TestcaseGenerationState F)). contains_key t m ≡ true)
                  (some-injective _ _ (
                    sym e
                    ∙ ap (λ i. HashMap.get i s.generations) (sym ((nat_beq_iff st j).0 same))
                    ∙ found))
                  contained),
          )
          | inr other ↦ (
            old,
            ground
                (arith, other, e, get-insert st j (HashMap.insert tc gen testcases) s.generations),
            contained,
          )
        ],
    h.1,
    λ j known.
        contains_key-insert st j (HashMap.insert tc gen testcases) s.generations (h.2 j known),
  )

  pub with_generation-Good_found :
      (st tc : ℕ) (change : TestcaseGenerationState F → Option (TestcaseGenerationState F))
      (testcases : HashMap ℕ (TestcaseGenerationState F)) (gen changed : TestcaseGenerationState F)
      (s : UiState F)
      → HashMap.get st s.generations ≡ some testcases
      → HashMap.get tc testcases ≡ some gen
      → change gen ≡ some changed
      → IsComplete s
      → Good (with_generation st tc change s)
  unfolding with_generation
  with_generation-Good_found st tc change testcases gen changed s found found_gen e h =
      let result : TestcaseGenerationState F → UiState F = λ c. record s {
        generations = HashMap.insert st (HashMap.insert tc c testcases) s.generations;
      } in
      (
        result changed,
        bind-of_some (HashMap.get st s.generations)
              (λ m. HashMap.get tc m >>= λ g. change g >>= λ c. some (record s {
                generations = HashMap.insert st (HashMap.insert tc c m) s.generations;
              }))
              found
            ∙ bind-of_some (HashMap.get tc testcases) (λ g. change g >>= λ c. some (result c))
                found_gen
            ∙ bind-of_some (change gen) (λ c. some (result c)) e,
        insert-generations st tc changed testcases s found h,
      )

  pub with_generation-Good :
      (st tc : ℕ) (change : TestcaseGenerationState F → Option (TestcaseGenerationState F))
      (info : SubtaskInfo) (s : UiState F)
      → ((gen : TestcaseGenerationState F)
          → (changed : TestcaseGenerationState F) × (change gen ≡ some changed))
      → HashMap.get st s.task.subtasks ≡ some info
      → HashSet.contains tc info.testcases_owned ≡ true
      → IsComplete s
      → Good (with_generation st tc change s)
  with_generation-Good st tc change owned s fine known there h =
      let (testcases, found, contained) = h.0 st tc owned known there in
      let (gen, found_gen) = get-of_contains tc testcases contained in
      let (changed, e) = fine gen in
      with_generation-Good_found st tc change testcases gen changed s found found_gen e h

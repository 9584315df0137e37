-- ===== src/Scoring/Manager.antt =====
-- ioi/mod.rs: `ScoreManager`. The channel to the user interface is the list of the messages, the
-- last first, and whether its receiver is there.
use task_maker_rust.Base.{
  ℕ, Bool, Option, none, some, List, [], ◌∷◌, map, String, if◌then◌else◌, all,
}
use task_maker_rust.Base.Lists.{is_empty}
use task_maker_rust.Base.Results.{Result, ok, err, ◌>>=◌}
use task_maker_rust.Base.Tests.{nat_eq, is_some}
use task_maker_rust.Base.HashMap
use task_maker_rust.Base.HashMap.{HashMap, values}
use task_maker_rust.Scoring.Numbers.{Score}
use task_maker_rust.Scoring.Aggregate.{TestcaseScoreAggregator, aggregate}

pub data ScoreError : Type 0 where
  panic send_failed : ScoreError

-- The messages of the scores.
pub data UiMessage (F : Type 0) : Type 0 where
  ioi_testcase_score :
      (subtask testcase : ℕ) (solution : String) (score : F) (message : String) → UiMessage F
  ioi_subtask_score : (subtask : ℕ) (solution : String) (score normalized_score : F) → UiMessage F
  ioi_task_score : (solution : String) (score : F) → UiMessage F

pub record SubtaskInfo (F : Type 0) : Type 0 where
  pub id : ℕ
  pub max_score : F
  pub testcases : List ℕ

-- The part of a task that the scores need.
pub record IoiTask (F : Type 0) : Type 0 where
  pub subtasks : HashMap ℕ (SubtaskInfo F)
  pub testcases : List ℕ
  pub testcase_score_aggregator : TestcaseScoreAggregator

pub record ScoreManager (F : Type 0) : Type 0 where
  pub solution : String
  pub subtask_scores : HashMap ℕ (Option F)
  pub max_subtask_scores : HashMap ℕ F
  pub testcase_scores : HashMap ℕ (Option F)
  pub subtask_testcases : HashMap ℕ (List ℕ)
  pub aggregator : TestcaseScoreAggregator
  pub sent : List (UiMessage F)
  pub receiver : Bool

-- `map[key]`
abbrev pub index {ℓ} : {A : Type ℓ} → ℕ → HashMap ℕ A → Result ScoreError A
index key m = elim (HashMap.get key m) [ none ↦ err panic | some a ↦ ok a ]

abbrev pub or_panic {ℓ} : {A : Type ℓ} → Option A → Result ScoreError A
or_panic none = err panic
or_panic (some a) = ok a

-- `collect` of pairs, the later ones over the earlier.
unfoldable pub collect {ℓ} : {A : Type ℓ} → HashMap ℕ A → List (ℕ × A) → HashMap ℕ A
unfolding HashMap.insert
collect m [] = m
collect m ((k, a) ∷ rest) = collect (HashMap.insert k a m) rest

module _ {F : Type 0} where
  unfoldable pub send : UiMessage F → ScoreManager F → Result ScoreError (ScoreManager F)
  send message m = if m.receiver then ok (record m { sent = message ∷ m.sent }) else err send_failed

  unfoldable pub with_score :
      Option F → Result ScoreError (Option (List F)) → Result ScoreError (Option (List F))
  unfolding ◌>>=◌
  with_score none others = ok none
  with_score (some x) others = do
    xs ← others
    ok (elim xs [ none ↦ none | some rest ↦ some (x ∷ rest) ])

  -- The scores of the testcases, `none` where one is not there yet: the test of `all` and the
  -- `map` that follows it.
  unfoldable pub scores_of : List ℕ → HashMap ℕ (Option F) → Result ScoreError (Option (List F))
  unfolding HashMap.get ◌>>=◌ with_score
  scores_of [] scores = ok (some [])
  scores_of (tc ∷ rest) scores = do
    score ← index tc scores
    with_score score (scores_of rest scores)

module _ {F : Type 0} ⦃fl : Score F⦄ where
  unfoldable pub normalize :
      ℕ → ScoreManager F → Option (List F) → Result ScoreError (Option (F × F))
  unfolding HashMap.get ◌>>=◌ aggregate
  normalize subtask_id m none = ok none
  normalize subtask_id m (some xs) = do
    normalized_score ← or_panic (aggregate m.aggregator xs)
    max_score ← index subtask_id m.max_subtask_scores
    ok (some (normalized_score, fl.mul max_score normalized_score))

  -- What `score_subtask` computes: the normalized score and the score of the subtask, when all its
  -- testcases have one.
  unfoldable pub compute : ℕ → ScoreManager F → Result ScoreError (Option (F × F))
  unfolding HashMap.get ◌>>=◌ scores_of normalize
  compute subtask_id m = do
    testcases ← index subtask_id m.subtask_testcases
    scores ← scores_of testcases m.testcase_scores
    normalize subtask_id m scores

  abbrev or_zero : Option F → F
  or_zero none = fl.zero
  or_zero (some x) = x

  unfoldable pub total : F → List (Option F) → F
  total sum [] = sum
  total sum (x ∷ xs) = total (fl.add sum (or_zero x)) xs

  abbrev pub all_scored : ScoreManager F → Bool
  all_scored m = all is_some (values m.subtask_scores)

  -- The score of the task, when all subtasks have one.
  unfoldable pub announce : ScoreManager F → Result ScoreError (ScoreManager F)
  unfolding send total
  announce m =
      if all_scored m
      then send (ioi_task_score m.solution (total fl.zero (values m.subtask_scores))) m
      else ok m

  unfoldable pub record_score :
      ℕ → Option (F × F) → ScoreManager F → Result ScoreError (ScoreManager F)
  unfolding HashMap.insert ◌>>=◌ send announce
  record_score subtask_id none m = ok m
  record_score subtask_id (some (normalized_score, subtask_score)) m = do
    m1 ← send (ioi_subtask_score subtask_id m.solution subtask_score normalized_score) (record m {
      subtask_scores = HashMap.insert subtask_id (some subtask_score) m.subtask_scores;
    })
    announce m1

  unfoldable pub score_subtask : ℕ → ScoreManager F → Result ScoreError (ScoreManager F)
  unfolding compute record_score ◌>>=◌
  score_subtask subtask_id m = do
    computed ← compute subtask_id m
    record_score subtask_id computed m

  -- The loop of `score` over the subtasks, as they were at its start.
  unfoldable pub score_each :
      HashMap ℕ (Option F) → ScoreManager F → Result ScoreError (ScoreManager F)
  unfolding score_subtask ◌>>=◌
  score_each [] m = ok m
  score_each ((subtask_id, some x) ∷ rest) m = score_each rest m
  score_each ((subtask_id, none) ∷ rest) m = do m1 ← score_subtask subtask_id m; score_each rest m1

  unfoldable pub score : ℕ → ℕ → F → String → ScoreManager F → Result ScoreError (ScoreManager F)
  unfolding HashMap.insert ◌>>=◌ send score_each
  score subtask_id testcase_id x message m = do
    m1 ←
        send (ioi_testcase_score subtask_id testcase_id m.solution x message)
          (record m { testcase_scores = HashMap.insert testcase_id (some x) m.testcase_scores })
    score_each m1.subtask_scores m1

  -- The loop of `new`.
  unfoldable pub score_empty :
      HashMap ℕ (SubtaskInfo F) → ScoreManager F → Result ScoreError (ScoreManager F)
  unfolding score_subtask ◌>>=◌
  score_empty [] m = ok m
  score_empty ((st_num, st) ∷ rest) m = do
    m1 ← if is_empty st.testcases then score_subtask st_num m else ok m
    score_empty rest m1

  unfoldable pub new_manager : IoiTask F → String → Bool → Result ScoreError (ScoreManager F)
  unfolding score_empty collect
  new_manager task solution receiver = score_empty task.subtasks (record {
    solution = solution;
    subtask_scores = map (λ e. (e.0, none)) task.subtasks;
    max_subtask_scores = collect [] (map (λ e. (e.1.id, e.1.max_score)) task.subtasks);
    testcase_scores = map (λ tc. (tc, none)) task.testcases;
    subtask_testcases = map (λ e. (e.0, e.1.testcases)) task.subtasks;
    aggregator = task.testcase_score_aggregator;
    sent = [];
    receiver = receiver;
  })

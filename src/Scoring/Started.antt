-- ===== src/Scoring/Started.antt =====
-- `ScoreManager::new`.
use task_maker_rust.Base.{
  ℕ, ◌≡◌, ◌⊎◌, inl, inr, refl, ap, ◌∙◌, Bool, true, Option, none, some, List, [], ◌∷◌, String,
  if◌then◌else◌, arith, map,
}
use task_maker_rust.Base.Lists.{is_empty}
use task_maker_rust.Base.Results.{ok, ◌>>=◌, bind-of_ok}
use task_maker_rust.Base.Tests.{nat_eq, nat_beq_iff, Bool-cases}
use task_maker_rust.Base.Keyed.{get-map, map-get, get-of_keys}
use task_maker_rust.Base.HashMap
use task_maker_rust.Base.HashSet
use task_maker_rust.Base.HashMap.{HashMap, keys}
use task_maker_rust.Scoring.Numbers.{Score}
use task_maker_rust.Scoring.Manager.{
  ScoreManager, IoiTask, SubtaskInfo, index, with_score, scores_of, normalize, compute, collect,
  score_subtask, score_each, score_empty,
}
use task_maker_rust.Scoring.Consistent.{ConsistentBut, second}
use task_maker_rust.Scoring.Scored.{index-some}

abbrev pub none_of : (F : Type 0) → Option F
none_of F = none

pub first_contained : (tc : ℕ) (tcs : List ℕ) → HashSet.contains tc (tc ∷ tcs) ≡ true
unfolding HashSet.contains
first_contained tc tcs = ground (arith, nat_beq_iff tc tc)

module _ {F : Type 0} ⦃fl : Score F⦄ where
  -- The testcases of the subtasks are testcases of the task.
  abbrev pub HasTestcases : IoiTask F → Type 0
  HasTestcases task =
      (st tc : ℕ) (info : SubtaskInfo F)
      → HashMap.get st task.subtasks ≡ some info
      → HashSet.contains tc info.testcases ≡ true
      → HashSet.contains tc task.testcases ≡ true

  -- A subtask without testcases, as the loop of `score` sees it.
  abbrev pub mark : SubtaskInfo F → Option F
  mark info = if is_empty info.testcases then none else some fl.zero

  pub score_empty-eq :
      (subtasks : HashMap ℕ (SubtaskInfo F)) (m : ScoreManager F)
      → score_empty subtasks m ≡ score_each (map (λ e. (e.0, mark e.1)) subtasks) m
  unfolding score_empty score_each ◌>>=◌
  score_empty-eq [] m = refl
  score_empty-eq ((st, info) ∷ rest) m = elim (Bool-cases (is_empty info.testcases)) [
    | inl empty ↦ rw empty (ap (λ k. score_subtask st m >>= k) (λ i k. score_empty-eq rest k i))
    | inr full ↦ rw full (score_empty-eq rest m)
  ]

  -- The manager before the loop.
  abbrev pub fresh : IoiTask F → String → Bool → ScoreManager F
  fresh task solution receiver = record {
    solution = solution;
    subtask_scores = map (λ e. (e.0, none)) task.subtasks;
    max_subtask_scores = collect [] (map (λ e. (e.1.id, e.1.max_score)) task.subtasks);
    testcase_scores = map (λ tc. (tc, none)) task.testcases;
    subtask_testcases = map (λ e. (e.0, e.1.testcases)) task.subtasks;
    aggregator = task.testcase_score_aggregator;
    sent = [];
    receiver = receiver;
  }

  scores_of_first :
      (tc : ℕ) (tcs : List ℕ) (scores : HashMap ℕ (Option F))
      → HashMap.get tc scores ≡ some none
      → scores_of (tc ∷ tcs) scores ≡ ok none
  unfolding scores_of with_score
  scores_of_first tc tcs scores h =
      bind-of_ok (index tc scores) (λ s. with_score s (scores_of tcs scores))
        (index-some tc scores none h)

  pub compute-fresh :
      (task : IoiTask F) (solution : String) (receiver : Bool) (st tc : ℕ) (tcs : List ℕ)
      (info : SubtaskInfo F)
      → HashMap.get st task.subtasks ≡ some info
      → info.testcases ≡ tc ∷ tcs
      → HashSet.contains tc task.testcases ≡ true
      → compute st (fresh task solution receiver) ≡ ok none
  unfolding compute normalize
  compute-fresh task solution receiver st tc tcs info found e there =
      bind-of_ok (index st subtask_testcases)
        (λ t. scores_of t scores >>= normalize st (fresh task solution receiver))
        (index-some st subtask_testcases (tc ∷ tcs)
          (map-get (λ i. i.testcases) st info task.subtasks found ∙ ap some e))
      ∙ bind-of_ok (scores_of (tc ∷ tcs) scores) (normalize st (fresh task solution receiver))
          (scores_of_first tc tcs scores (get-of_keys none tc task.testcases there))
    where
      subtask_testcases : HashMap ℕ (List ℕ)
      subtask_testcases = map (λ e. (e.0, e.1.testcases)) task.subtasks

      scores : HashMap ℕ (Option F)
      scores = map (λ t. (t, none)) task.testcases

  pub fresh-ConsistentBut :
      (task : IoiTask F) (solution : String) (receiver : Bool)
      → HasTestcases task
      → ConsistentBut (map (λ e. (e.0, mark e.1)) task.subtasks) (fresh task solution receiver)
  fresh-ConsistentBut task solution receiver has st v found =
      let (info, known, e) = get-map (λ _. none) st v task.subtasks found in
      go info known e info.testcases refl
    where
      go :
          (info : SubtaskInfo F)
          → HashMap.get st task.subtasks ≡ some info
          → v ≡ none
          → (tcs : List ℕ) → info.testcases ≡ tcs
          → ((c : Option (F × F)) × (compute st (fresh task solution receiver) ≡ ok c)
              × (v ≡ second c))
            ⊎ ((v ≡ none) × (HashMap.get st (map (λ e. (e.0, mark e.1)) task.subtasks) ≡ some none))
      go info known e [] empty = inr (
        e,
        map-get mark st info task.subtasks known
            ∙ ap (λ l. some (if is_empty l then none else some fl.zero)) empty,
      )
      go info known e (tc ∷ tcs) full = inl (
        none,
        compute-fresh task solution receiver st tc tcs info known full
            (has st tc info known (rw full (first_contained tc tcs))),
        e,
      )

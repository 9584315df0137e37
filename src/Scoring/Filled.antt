-- ===== src/Scoring/Filled.antt =====
-- A new `ScoreManager`: which subtasks have a score.
use task_maker_rust.Base.{
  ℕ, ◌≡◌, inl, inr, refl, sym, ap, ◌∙◌, Bool, true, Option, none, some, List, [], ◌∷◌, String,
  arith, map, subst, false, is_some,
}
use task_maker_rust.Base.Lists.{is_empty}
use task_maker_rust.Base.Results.{ok, ◌>>=◌, bind-of_ok, bind-eq-ok, ok-injective}
use task_maker_rust.Base.Tests.{nat_eq, Option-cases}
use task_maker_rust.Base.Keyed.{map-get}
use task_maker_rust.Base.HashMap
use task_maker_rust.Base.HashMap.{HashMap, keys}
use task_maker_rust.Scoring.Numbers.{Score}
use task_maker_rust.Scoring.Aggregate.{aggregate}
use task_maker_rust.Scoring.Manager.{
  ScoreManager, IoiTask, SubtaskInfo, or_panic, index, scores_of, normalize, compute, new_manager,
}
use task_maker_rust.Scoring.Consistent.{
  IsConsistent, second, compute-Changed, score_each-IsConsistent,
}
use task_maker_rust.Scoring.Kept.{Kept, keys-map, score_each-Kept, contains_key-keys}
use task_maker_rust.Scoring.Scored.{index-some}
use task_maker_rust.Scoring.Started.{
  none_of, first_contained, HasTestcases, mark, fresh, score_empty-eq, compute-fresh,
  fresh-ConsistentBut,
}

module _ {F : Type 0} ⦃fl : Score F⦄ where
  normalize-some :
      (st : ℕ) (m : ScoreManager F) (xs : List F) (c : Option (F × F))
      → normalize st m (some xs) ≡ ok c
      → is_some (second c) ≡ true
  unfolding normalize
  normalize-some st m xs c h =
      let (normalized, e1, h1) =
        bind-eq-ok (or_panic (aggregate m.aggregator xs))
          (λ n. index st m.max_subtask_scores >>= λ most. ok (some (n, fl.mul most n))) h in
      let (most, e2, h2) =
        bind-eq-ok (index st m.max_subtask_scores)
          (λ k. ok (some (normalized, fl.mul k normalized))) h1 in
      subst (λ d. is_some (second d) ≡ true) (ok-injective h2) refl

  -- What a new manager computes for a subtask: a score exactly where it has no testcases.
  compute-is_empty :
      (task : IoiTask F) (solution : String) (receiver : Bool) (st : ℕ) (info : SubtaskInfo F)
      (c : Option (F × F)) (tcs : List ℕ)
      → HasTestcases task
      → HashMap.get st task.subtasks ≡ some info
      → info.testcases ≡ tcs
      → compute st (fresh task solution receiver) ≡ ok c
      → is_some (second c) ≡ is_empty tcs
  unfolding compute scores_of
  compute-is_empty task solution receiver st info c [] has known e h =
      normalize-some st (fresh task solution receiver) [] c (
        sym (
          bind-of_ok (index st subtask_testcases)
            (λ t. scores_of t scores >>= normalize st (fresh task solution receiver))
            (index-some st subtask_testcases []
              (map-get (λ i. i.testcases) st info task.subtasks known ∙ ap some e))
          ∙ bind-of_ok (scores_of [] scores) (normalize st (fresh task solution receiver)) refl)
        ∙ h)
    where
      subtask_testcases : HashMap ℕ (List ℕ)
      subtask_testcases = map (λ e. (e.0, e.1.testcases)) task.subtasks

      scores : HashMap ℕ (Option F)
      scores = map (λ t. (t, none)) task.testcases
  compute-is_empty task solution receiver st info c (tc ∷ tcs) has known e h =
      subst (λ d. is_some (second d) ≡ false)
        (ok-injective (
          sym (
            compute-fresh task solution receiver st tc tcs info known e
              (has st tc info known (rw e (first_contained tc tcs))))
          ∙ h))
        refl

  -- Each subtask has an entry, with a score exactly where it has no testcases.
  abbrev pub Starts : IoiTask F → ScoreManager F → Type 0
  Starts task m =
      (keys m.subtask_scores ≡ keys task.subtasks)
      × ((st : ℕ) (info : SubtaskInfo F)
          → HashMap.get st task.subtasks ≡ some info
          → (v : Option F) × (HashMap.get st m.subtask_scores ≡ some v)
            × (is_some v ≡ is_empty info.testcases))

  new_manager-Kept :
      (task : IoiTask F) (solution : String) (receiver : Bool) (m : ScoreManager F)
      → new_manager task solution receiver ≡ ok m
      → Kept (fresh task solution receiver) m
  unfolding new_manager
  new_manager-Kept task solution receiver m h =
      score_each-Kept (map (λ e. (e.0, mark e.1)) task.subtasks) (fresh task solution receiver) m
        (λ st there.
          contains_key-keys st (map (λ e. (e.0, none_of F)) task.subtasks)
            (map (λ e. (e.0, mark e.1)) task.subtasks)
            (keys-map (λ _. none_of F) task.subtasks ∙ sym (keys-map mark task.subtasks))
          ∙ there)
        (sym (score_empty-eq task.subtasks _) ∙ h)

  new_manager-Starts :
      (task : IoiTask F) (solution : String) (receiver : Bool) (m : ScoreManager F)
      → HasTestcases task
      → new_manager task solution receiver ≡ ok m
      → IsConsistent m
      → Starts task m
  new_manager-Starts task solution receiver m has h consistent =
      let (scores, sent, e, kept) = new_manager-Kept task solution receiver m h in
      let same : keys m.subtask_scores ≡ keys task.subtasks =
        ap (λ (k : ScoreManager F). keys k.subtask_scores) e
        ∙ kept
        ∙ keys-map (λ _. none_of F) task.subtasks in
      (
        same,
        λ st info known. elim (Option-cases (HashMap.get st m.subtask_scores)) [
          | inl gone ↦ absurd (
              ground (arith, gone, known, contains_key-keys st m.subtask_scores task.subtasks same))
          | inr (v, found) ↦
              let (c, computed, is_c) = consistent st v found in
              let here : compute st (fresh task solution receiver) ≡ ok c =
                sym (compute-Changed st (fresh task solution receiver) scores sent)
                ∙ subst (λ (k : ScoreManager F). compute st k ≡ ok c) e computed in
              (
                v,
                found,
                ap is_some is_c
                    ∙ compute-is_empty task solution receiver st info c info.testcases has known
                        refl here,
              )
        ],
      )

  -- Where the testcases of the subtasks are testcases of the task, a new score manager whose
  -- creation succeeds has an entry for each subtask and no other, with a score exactly where the
  -- subtask has no testcases, and each score is the one that the testcases give.
  pub new_manager-IsConsistent :
      (task : IoiTask F) (solution : String) (receiver : Bool) (m : ScoreManager F)
      → HasTestcases task
      → new_manager task solution receiver ≡ ok m
      → IsConsistent m × Starts task m
  unfolding new_manager
  new_manager-IsConsistent task solution receiver m has h =
      let consistent =
        score_each-IsConsistent (map (λ e. (e.0, mark e.1)) task.subtasks)
          (fresh task solution receiver) m (sym (score_empty-eq task.subtasks _) ∙ h)
          (fresh-ConsistentBut task solution receiver has) in
      (consistent, new_manager-Starts task solution receiver m has h consistent)

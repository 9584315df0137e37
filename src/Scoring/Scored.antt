-- ===== src/Scoring/Scored.antt =====
-- `ScoreManager::score` and `ScoreManager::new`: the scores stay those that the testcases give.
use task_maker_rust.Base.{
  ℕ, ◌≡◌, ◌≢◌, ◌⊎◌, inl, inr, refl, sym, ap, ◌∙◌, subst, Option, none, some, List, [], ◌∷◌, String,
  arith,
}
use mathlib.Core.Option.{some-injective}
use task_maker_rust.Base.Results.{Result, ok, err, ◌>>=◌, bind-eq-ok, bind-of_ok, ok-injective}
use task_maker_rust.Base.Tests.{nat_eq, nat_beq_iff, Option-cases}
use task_maker_rust.Base.HashMap
use task_maker_rust.Base.HashMap.{HashMap, get-insert}
use task_maker_rust.Scoring.Numbers.{Score}
use task_maker_rust.Scoring.Manager.{
  ScoreManager, ScoreError, UiMessage, send, index, with_score, scores_of, normalize, compute,
  ioi_testcase_score, score_each, score,
}
use task_maker_rust.Scoring.Consistent.{
  IsConsistent, ConsistentBut, second, send-ok, score_each-IsConsistent,
}

index-ok {ℓ} :
    {A : Type ℓ} (k : ℕ) (m : HashMap ℕ A) (a : A) → index k m ≡ ok a → HashMap.get k m ≡ some a
index-ok k m a h = ground (arith, h)

pub index-some {ℓ} :
    {A : Type ℓ} (k : ℕ) (m : HashMap ℕ A) (a : A) → HashMap.get k m ≡ some a → index k m ≡ ok a
index-some k m a h = ground (arith, h)

module _ {F : Type 0} where
  with_score-ok :
      (score : Option F) (others : Result ScoreError (Option (List F))) (xs : List F)
      → with_score score others ≡ ok (some xs)
      → (x : F) × (ys : List F) × (score ≡ some x) × (others ≡ ok (some ys)) × (xs ≡ x ∷ ys)
  unfolding with_score
  with_score-ok none others xs h = cc
  with_score-ok (some x) (err e) xs h = cc
  with_score-ok (some x) (ok none) xs h = cc
  with_score-ok (some x) (ok (some ys)) xs h =
      (x, ys, refl, refl, sym (some-injective _ _ (ok-injective h)))

  scores_of-insert :
      (tc : ℕ) (y : Option F) (scores : HashMap ℕ (Option F)) (tcs : List ℕ) (xs : List F)
      → HashMap.get tc scores ≡ some none
      → scores_of tcs scores ≡ ok (some xs)
      → scores_of tcs (HashMap.insert tc y scores) ≡ ok (some xs)
  unfolding scores_of
  scores_of-insert tc y scores [] xs unscored h = h
  scores_of-insert tc y scores (t ∷ tcs) xs unscored h =
      let (score, i, rest) =
        bind-eq-ok (index t scores) (λ s. with_score s (scores_of tcs scores)) h in
      let (x, ys, is_x, others, e) = with_score-ok score _ xs rest in
      let there : HashMap.get t (HashMap.insert tc y scores) ≡ some score = ground (
        arith,
        index-ok t scores score i,
        is_x,
        unscored,
        get-insert tc t y scores,
        nat_beq_iff tc t,
      ) in
      bind-of_ok (index t (HashMap.insert tc y scores))
        (λ s. with_score s (scores_of tcs (HashMap.insert tc y scores)))
        (index-some t (HashMap.insert tc y scores) score there)
      ∙ ap (with_score score) (scores_of-insert tc y scores tcs ys unscored others ∙ sym others)
      ∙ rest

module _ {F : Type 0} ⦃fl : Score F⦄ where
  -- The manager with the score of a testcase.
  abbrev pub with_testcase : ℕ → F → ScoreManager F → List (UiMessage F) → ScoreManager F
  with_testcase tc x m sent = record m {
    testcase_scores = HashMap.insert tc (some x) m.testcase_scores;
    sent = sent;
  }

  normalize-with_testcase :
      (st tc : ℕ) (x : F) (m : ScoreManager F) (sent : List (UiMessage F))
      (scores : Option (List F))
      → normalize st (with_testcase tc x m sent) scores ≡ normalize st m scores
  unfolding normalize
  normalize-with_testcase st tc x m sent none = refl
  normalize-with_testcase st tc x m sent (some xs) = refl

  normalize-none : (st : ℕ) (m : ScoreManager F) (c : F × F) → normalize st m none ≢ ok (some c)
  unfolding normalize
  normalize-none st m c h = cc

  -- A testcase that was not scored is not among those of a scored subtask.
  compute-with_testcase :
      (st tc : ℕ) (x : F) (m : ScoreManager F) (c : F × F) (sent : List (UiMessage F))
      → HashMap.get tc m.testcase_scores ≡ some none
      → compute st m ≡ ok (some c)
      → compute st (with_testcase tc x m sent) ≡ ok (some c)
  unfolding compute
  compute-with_testcase st tc x m c sent unscored h =
      let (tcs, i, rest) = bind-eq-ok (index st m.subtask_testcases) _ h in
      let (scores, s, last) = bind-eq-ok (scores_of tcs m.testcase_scores) (normalize st m) rest in
      elim (Option-cases scores) [
        | inl left ↦
            absurd (normalize-none st m c (subst (λ o. normalize st m o ≡ ok (some c)) left last))
        | inr (xs, e) ↦
            bind-of_ok (index st m.subtask_testcases)
              (λ t.
                scores_of t (HashMap.insert tc (some x) m.testcase_scores)
                >>= normalize st (with_testcase tc x m sent))
              i
            ∙ bind-of_ok (scores_of tcs (HashMap.insert tc (some x) m.testcase_scores))
                (normalize st (with_testcase tc x m sent))
                (scores_of-insert tc (some x) m.testcase_scores tcs xs unscored (s ∙ ap ok e))
            ∙ normalize-with_testcase st tc x m sent (some xs)
            ∙ subst (λ o. normalize st m o ≡ ok (some c)) e last
      ]

  with_testcase-ConsistentBut :
      (tc : ℕ) (x : F) (m : ScoreManager F) (sent : List (UiMessage F))
      → HashMap.get tc m.testcase_scores ≡ some none
      → IsConsistent m
      → ConsistentBut m.subtask_scores (with_testcase tc x m sent)
  with_testcase-ConsistentBut tc x m sent unscored h j none found = inr (refl, found)
  with_testcase-ConsistentBut tc x m sent unscored h j (some y) found = go (h j (some y) found)
    where
      go :
          (c : Option (F × F)) × (compute j m ≡ ok c) × (some y ≡ second c)
          → ((c : Option (F × F)) × (compute j (with_testcase tc x m sent) ≡ ok c)
              × (some y ≡ second c))
            ⊎ ((some y ≡ none) × (HashMap.get j m.subtask_scores ≡ some none))
      go (none, computed, e) = cc
      go (some c, computed, e) =
          inl (some c, compute-with_testcase j tc x m c sent unscored computed, e)

  -- Where each subtask has the score that its testcases give it, the maximum times the aggregate,
  -- or none while one of its testcases has none, so it is after a successful `score` of a testcase
  -- that had no score.
  pub score-IsConsistent :
      (st tc : ℕ) (x : F) (message : String) (m n : ScoreManager F)
      → HashMap.get tc m.testcase_scores ≡ some none
      → IsConsistent m
      → score st tc x message m ≡ ok n
      → IsConsistent n
  unfolding score
  score-IsConsistent st tc x message m n unscored h e =
      let note = ioi_testcase_score st tc m.solution x message in
      let (m1, sent, each) =
        bind-eq-ok (send note (with_testcase tc x m m.sent)) (λ k. score_each k.subtask_scores k)
          e in
      let same = send-ok note (with_testcase tc x m m.sent) m1 sent in
      score_each-IsConsistent m1.subtask_scores m1 n each (
        subst (λ (k : ScoreManager F). ConsistentBut k.subtask_scores k) (sym same)
          (with_testcase-ConsistentBut tc x m (note ∷ m.sent) unscored h))

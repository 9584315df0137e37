-- ===== src/Scoring/Consistent.antt =====
-- The scores of `ScoreManager` against those that its testcases give.
use task_maker_rust.Base.{
  ℕ, ◌≡◌, ◌⊎◌, inl, inr, refl, sym, ap, ◌∙◌, subst, Bool, true, false, Option, none, some, List, [],
  ◌∷◌, if◌then◌else◌, arith,
}
use task_maker_rust.Base.Results.{ok, err, bind-eq-ok, ok-injective}
use task_maker_rust.Base.Tests.{nat_eq, nat_beq, nat_beq_iff, Bool-cases}
use task_maker_rust.Base.HashMap
use task_maker_rust.Base.HashMap.{HashMap, get-insert}
use task_maker_rust.Scoring.Numbers.{Score}
use task_maker_rust.Scoring.Manager.{
  ScoreManager, ScoreError, UiMessage, send, normalize, compute, announce, record_score,
  score_subtask, score_each, all_scored,
}

module _ {F : Type 0} ⦃fl : Score F⦄ where
  abbrev pub second : Option (F × F) → Option F
  second none = none
  second (some (normalized, x)) = some x

  -- Each subtask has the score that its testcases give it, or none while one of them has none.
  abbrev pub IsConsistent : ScoreManager F → Type 0
  IsConsistent m =
      (st : ℕ) (v : Option F)
      → HashMap.get st m.subtask_scores ≡ some v
      → (c : Option (F × F)) × (compute st m ≡ ok c) × (v ≡ second c)

  -- The manager after messages and a change of the scores of subtasks.
  abbrev pub Changed : ScoreManager F → HashMap ℕ (Option F) → ScoreManager F → Type 0
  Changed m scores n =
      (sent : List (UiMessage F)) × (n ≡ record m { subtask_scores = scores; sent = sent })

  if_ok :
      {m n : ScoreManager F} (e : ScoreError) (b : Bool)
      → (if b then ok m else err e) ≡ ok n
      → n ≡ m
  if_ok e true h = sym (ok-injective h)
  if_ok e false h = cc

  pub send-ok :
      (message : UiMessage F) (m n : ScoreManager F)
      → send message m ≡ ok n
      → n ≡ record m { sent = message ∷ m.sent }
  unfolding send
  send-ok message m n h = if_ok _ m.receiver h

  announce-ok : (m n : ScoreManager F) → announce m ≡ ok n → Changed m m.subtask_scores n
  unfolding announce
  announce-ok m n h = elim (Bool-cases (all_scored m)) [
    | inl all_there ↦ (_, send-ok _ m n (rw (all_there, announce) at h))
    | inr some_left ↦ (m.sent, sym (ok-injective (rw (some_left, announce) at h)))
  ]

  abbrev pub put : ℕ → Option F → HashMap ℕ (Option F) → HashMap ℕ (Option F)
  put st none scores = scores
  put st (some x) scores = HashMap.insert st (some x) scores

  record_score-ok :
      (st : ℕ) (c : Option (F × F)) (m n : ScoreManager F)
      → record_score st c m ≡ ok n
      → Changed m (put st (second c) m.subtask_scores) n
  unfolding record_score
  record_score-ok st none m n h = (m.sent, sym (ok-injective h))
  record_score-ok st (some c) m n h =
      let (m1, sent, rest) = bind-eq-ok _ _ h in
      let e = send-ok _ _ m1 sent in
      let (l, e2) = announce-ok m1 n rest in
      (
        l,
        e2
            ∙ ap (λ (k : ScoreManager F). record k { subtask_scores = k.subtask_scores; sent = l })
                e,
      )

  pub score_subtask-ok :
      (st : ℕ) (m n : ScoreManager F)
      → score_subtask st m ≡ ok n
      → (c : Option (F × F)) × (compute st m ≡ ok c)
        × Changed m (put st (second c) m.subtask_scores) n
  unfolding score_subtask
  score_subtask-ok st m n h =
      let (c, computed, recorded) = bind-eq-ok _ _ h in
      (c, computed, record_score-ok st c m n recorded)

  -- Consistent but for subtasks without a score that are still to come.
  abbrev pub ConsistentBut : HashMap ℕ (Option F) → ScoreManager F → Type 0
  ConsistentBut rest m =
      (st : ℕ) (v : Option F)
      → HashMap.get st m.subtask_scores ≡ some v
      → ((c : Option (F × F)) × (compute st m ≡ ok c) × (v ≡ second c))
        ⊎ ((v ≡ none) × (HashMap.get st rest ≡ some none))

  pub compute-Changed :
      (st : ℕ) (m : ScoreManager F) (scores : HashMap ℕ (Option F)) (sent : List (UiMessage F))
      → compute st (record m { subtask_scores = scores; sent = sent }) ≡ compute st m
  unfolding compute normalize
  compute-Changed st m scores sent = refl

  put_cases :
      (st j : ℕ) (rest : HashMap ℕ (Option F)) (m : ScoreManager F) (c : Option (F × F))
      (v : Option F)
      → ConsistentBut ((st, none) ∷ rest) m
      → compute st m ≡ ok c
      → HashMap.get j (put st (second c) m.subtask_scores) ≡ some v
      → ((d : Option (F × F)) × (compute j m ≡ ok d) × (v ≡ second d))
        ⊎ ((v ≡ none) × (HashMap.get j rest ≡ some none))
  unfolding HashMap.get
  put_cases st j rest m none v but computed found = elim (but j v found) [
    | inl done ↦ inl done
    | inr (e, left) ↦ elim (Bool-cases (nat_beq st j)) [
      | inl same ↦
          inl (none, subst (λ k. compute k m ≡ ok none) ((nat_beq_iff st j).0 same) computed, e)
      | inr other ↦ inr (e, ground (arith, left, other))
    ]
  ]
  put_cases st j rest m (some c) v but computed found = elim (Bool-cases (nat_beq st j)) [
    | inl same ↦ inl (
      some c,
      subst (λ k. compute k m ≡ ok (some c)) ((nat_beq_iff st j).0 same) computed,
      ground (arith, found, same, get-insert st j (some c.1) m.subtask_scores),
    )
    | inr other ↦
        elim (but j v (ground (arith, found, other, get-insert st j (some c.1) m.subtask_scores))) [
          | inl done ↦ inl done
          | inr (e, left) ↦ inr (e, ground (arith, left, other))
        ]
  ]

  -- The score of the first of the subtasks that are still to come is written.
  put-ConsistentBut :
      (st : ℕ) (rest : HashMap ℕ (Option F)) (m : ScoreManager F) (c : Option (F × F))
      (sent : List (UiMessage F))
      → ConsistentBut ((st, none) ∷ rest) m
      → compute st m ≡ ok c
      → ConsistentBut rest
          (record m { subtask_scores = put st (second c) m.subtask_scores; sent = sent })
  unfolding HashMap.get
  put-ConsistentBut st rest m c sent but computed j v found =
      rw (compute-Changed j m (put st (second c) m.subtask_scores) sent)
        (put_cases st j rest m c v but computed found)

  pub score_each-IsConsistent :
      (rest : HashMap ℕ (Option F)) (m n : ScoreManager F)
      → score_each rest m ≡ ok n
      → ConsistentBut rest m
      → IsConsistent n
  unfolding score_each HashMap.get
  score_each-IsConsistent [] m n h but = λ st v found.
      elim (but st v (
        subst (λ (k : ScoreManager F). HashMap.get st k.subtask_scores ≡ some v)
          (sym (ok-injective h)) found)) [
            | inl done ↦
                subst (λ k. (c : Option (F × F)) × (compute st k ≡ ok c) × (v ≡ second c))
                  (ok-injective h) done
            | inr (_, left) ↦ cc
          ]
  score_each-IsConsistent ((st, some x) ∷ rest) m n h but =
      score_each-IsConsistent rest m n h λ j v found. elim (but j v found) [
        | inl done ↦ inl done
        | inr (e, left) ↦ inr (e, ground (arith, left))
      ]
  score_each-IsConsistent ((st, none) ∷ rest) m n h but =
      let (m1, scored, others) = bind-eq-ok _ _ h in
      let (c, computed, (sent, e)) = score_subtask-ok st m m1 scored in
      score_each-IsConsistent rest m1 n others
        (subst (ConsistentBut rest) (sym e) (put-ConsistentBut st rest m c sent but computed))

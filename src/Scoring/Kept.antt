-- ===== src/Scoring/Kept.antt =====
-- What `ScoreManager::score_subtask` leaves of the manager: all but the scores and the messages.
use task_maker_rust.Base.{
  ℕ, ◌≡◌, refl, sym, ap, ◌∙◌, inl, inr, true, Option, none, some, List, [], ◌∷◌, arith, map,
}
use task_maker_rust.Base.Results.{ok, bind-eq-ok, ok-injective}
use task_maker_rust.Base.Tests.{nat_eq, nat_beq, Bool-cases}
use task_maker_rust.Base.HashMap
use task_maker_rust.Base.HashMap.{HashMap, keys, values, contains_key}
use task_maker_rust.Scoring.Numbers.{Score}
use task_maker_rust.Scoring.Manager.{ScoreManager, UiMessage, score_subtask, score_each}
use task_maker_rust.Scoring.Consistent.{put, second, score_subtask-ok}

keys-insert :
    {A : Type 0} (k : ℕ) (a : A) (m : HashMap ℕ A)
    → contains_key k m ≡ true
    → keys (HashMap.insert k a m) ≡ keys m
unfolding HashMap.get HashMap.insert
keys-insert k a [] h = cc
keys-insert k a ((j, b) ∷ m) h = elim (Bool-cases (nat_beq j k)) [
  | inl same ↦ rw (same, HashMap.insert) (ap (λ i. i ∷ keys m) (sym ((nat_eq.beq_iff j k).0 same)))
  | inr other ↦
      rw (other, HashMap.insert)
        (ap (λ l. j ∷ l) (keys-insert k a m (rw (other, HashMap.get) at h)))
]

pub keys-map :
    {A B : Type 0} (g : A → B) (m : HashMap ℕ A) → keys (map (λ e. (e.0, g e.1)) m) ≡ keys m
keys-map g [] = refl
keys-map g ((k, a) ∷ m) = ap (λ l. k ∷ l) (keys-map g m)

-- Which keys a map has depends on its list of keys.
pub contains_key-keys :
    {A B : Type 0} (k : ℕ) (m : HashMap ℕ A) (n : HashMap ℕ B)
    → keys m ≡ keys n
    → contains_key k m ≡ contains_key k n
unfolding HashMap.get
contains_key-keys k [] [] h = refl
contains_key-keys k [] ((j, b) ∷ n) h = cc
contains_key-keys k ((i, a) ∷ m) [] h = cc
contains_key-keys k ((i, a) ∷ m) ((j, b) ∷ n) h =
    let same : i ≡ j = ground (arith, h) in
    let rest : keys m ≡ keys n = ground (arith, h) in
    ground (arith, same, contains_key-keys k m n rest)

module _ {F : Type 0} ⦃fl : Score F⦄ where
  -- Scores and messages may differ, but not the subtasks that have an entry.
  abbrev pub Kept : ScoreManager F → ScoreManager F → Type 0
  Kept m n =
      (scores : HashMap ℕ (Option F)) × (sent : List (UiMessage F)) × (n
        ≡ record m { subtask_scores = scores; sent = sent })
      × (keys scores ≡ keys m.subtask_scores)

  keys-put :
      (st : ℕ) (o : Option F) (scores : HashMap ℕ (Option F))
      → contains_key st scores ≡ true
      → keys (put st o scores) ≡ keys scores
  keys-put st none scores h = refl
  keys-put st (some x) scores h = keys-insert st (some x) scores h

  pub score_each-Kept :
      (rest : HashMap ℕ (Option F)) (m n : ScoreManager F)
      → ((st : ℕ) → contains_key st rest ≡ true → contains_key st m.subtask_scores ≡ true)
      → score_each rest m ≡ ok n
      → Kept m n
  unfolding score_each HashMap.get
  score_each-Kept [] m n sub h = (m.subtask_scores, m.sent, sym (ok-injective h), refl)
  score_each-Kept ((st, some x) ∷ rest) m n sub h =
      score_each-Kept rest m n (λ j there. sub j (ground (arith, there))) h
  score_each-Kept ((st, none) ∷ rest) m n sub h =
      let (m1, scored, others) = bind-eq-ok (score_subtask st m) (score_each rest) h in
      let (c, computed, (l, e)) = score_subtask-ok st m m1 scored in
      let same : keys m1.subtask_scores ≡ keys m.subtask_scores =
        ap (λ (k : ScoreManager F). keys k.subtask_scores) e
        ∙ keys-put st (second c) m.subtask_scores (sub st (ground (arith, nat_eq.beq_iff st st))) in
      let (scores, sent, e2, kept) =
        score_each-Kept rest m1 n
          (λ j there.
            contains_key-keys j m1.subtask_scores m.subtask_scores same
            ∙ sub j (ground (arith, there)))
          others in
      (
        scores,
        sent,
        e2 ∙ ap (λ (k : ScoreManager F). record k { subtask_scores = scores; sent = sent }) e,
        kept ∙ same,
      )

-- ===== src/Scoring/Announced.antt =====
-- The message with the score of the task.
use task_maker_rust.Base.{
  ℕ, suc, ◌≡◌, ◌≢◌, inl, inr, refl, sym, ap, ◌∙◌, subst, false, Option, none, some, List, [], ◌∷◌,
  String, if◌then◌else◌, arith, map, all,
}
use task_maker_rust.Base.Results.{ok, bind-eq-ok, ok-injective}
use task_maker_rust.Base.Tests.{nat_eq, nat_beq, nat_beq_iff, Bool-cases, is_some}
use task_maker_rust.Base.HashMap
use task_maker_rust.Base.HashMap.{HashMap, get-insert, values}
use task_maker_rust.Scoring.Numbers.{Score}
use task_maker_rust.Scoring.Manager.{
  ScoreManager, UiMessage, ioi_testcase_score, ioi_subtask_score, ioi_task_score, send, compute,
  all_scored, announce, record_score, score_subtask, score_each, score,
}
use task_maker_rust.Scoring.Consistent.{send-ok, put, second, score_subtask-ok}
use task_maker_rust.Scoring.Scored.{with_testcase}
use task_maker_rust.Scoring.Started.{none_of}

-- Each subtask stands once.
abbrev pub AreNew : {A : Type 0} → HashMap ℕ A → Type 0
AreNew [] = Unit {0}
AreNew ((k, a) ∷ m) = (HashMap.get k m ≡ none) × AreNew m

insert-AreNew :
    {A : Type 0} (k : ℕ) (a b : A) (m : HashMap ℕ A)
    → HashMap.get k m ≡ some a
    → AreNew m
    → AreNew (HashMap.insert k b m)
unfolding HashMap.get HashMap.insert
insert-AreNew k a b [] h new = cc
insert-AreNew k a b ((j, c) ∷ m) h new = elim (Bool-cases (nat_beq j k)) [
  | inl same ↦
      rw (same, HashMap.insert)
        (subst (λ i. HashMap.get i m ≡ none) ((nat_beq_iff j k).0 same) new.0, new.1)
  | inr other ↦
      rw (other, HashMap.insert)
        (
          ground (arith, get-insert k j b m, nat_beq_iff j k, nat_beq_iff k j, other, new.0),
          insert-AreNew k a b m (rw (other, HashMap.get) at h) new.1,
        )
]

map-get_none :
    {A B : Type 0} (f : A → B) (k : ℕ) (m : HashMap ℕ A)
    → HashMap.get k m ≡ none
    → HashMap.get k (map (λ e. (e.0, f e.1)) m) ≡ none
unfolding HashMap.get
map-get_none f k [] h = refl
map-get_none f k ((j, a) ∷ m) h = ground (arith, h, map-get_none f k m)

pub map-AreNew :
    {A B : Type 0} (f : A → B) (m : HashMap ℕ A) → AreNew m → AreNew (map (λ e. (e.0, f e.1)) m)
map-AreNew f [] new = tt
map-AreNew f ((k, a) ∷ m) new = (map-get_none f k m new.0, map-AreNew f m new.1)

pub none_scored :
    {A : Type 0} (F : Type 0) (m : HashMap ℕ A)
    → m ≢ []
    → ◌≡◌ {A = ℕ} 0 (if all is_some (values (map (λ e. (e.0, none_of F)) m)) then 1 else 0)
none_scored F [] some_left = absurd (some_left refl)
none_scored F ((k, a) ∷ m) some_left = refl

module _ {F : Type 0} ⦃fl : Score F⦄ where
  abbrev pub announcements : List (UiMessage F) → ℕ
  announcements [] = 0
  announcements (ioi_task_score solution x ∷ rest) = suc (announcements rest)
  announcements (message ∷ rest) = announcements rest

  -- The score of the task was sent once, when all subtasks have a score, and never before.
  abbrev pub IsAnnounced : ScoreManager F → Type 0
  IsAnnounced m = (announcements m.sent ≡ (if all_scored m then 1 else 0)) × AreNew m.subtask_scores

  all_scored-false :
      (st : ℕ) (scores : HashMap ℕ (Option F))
      → HashMap.get st scores ≡ some none
      → all is_some (values scores) ≡ false
  unfolding HashMap.get
  all_scored-false st [] h = cc
  all_scored-false st ((j, none) ∷ scores) h = refl
  all_scored-false st ((j, some x) ∷ scores) h = ground (arith, all_scored-false st scores)

  announcements-announce :
      (m n : ScoreManager F)
      → announce m ≡ ok n
      → (announcements n.sent
          ≡ (if all_scored m then suc (announcements m.sent) else announcements m.sent))
        × (n.subtask_scores ≡ m.subtask_scores)
  unfolding announce
  announcements-announce m n h = elim (Bool-cases (all_scored m)) [
    | inl all_there ↦
        let e = send-ok _ m n (rw (all_there, announce) at h) in
        rw all_there (
          ap (λ (k : ScoreManager F). announcements k.sent) e,
          ap (λ (k : ScoreManager F). k.subtask_scores) e,
        )
    | inr some_left ↦
        let e = sym (ok-injective (rw (some_left, announce) at h)) in
        rw some_left (
          ap (λ (k : ScoreManager F). announcements k.sent) e,
          ap (λ (k : ScoreManager F). k.subtask_scores) e,
        )
  ]

  record_score-IsAnnounced :
      (st : ℕ) (c : Option (F × F)) (m n : ScoreManager F)
      → HashMap.get st m.subtask_scores ≡ some none
      → IsAnnounced m
      → record_score st c m ≡ ok n
      → IsAnnounced n
  unfolding record_score
  record_score-IsAnnounced st none m n left h e = subst IsAnnounced (ok-injective e) h
  record_score-IsAnnounced st (some c) m n left h e =
      let scored : ScoreManager F = record m {
        subtask_scores = HashMap.insert st (some c.1) m.subtask_scores;
      } in
      let note = ioi_subtask_score st m.solution c.1 c.0 in
      let (m1, sent, rest) = bind-eq-ok (send note scored) announce e in
      let same = send-ok note scored m1 sent in
      let (count, scores) = announcements-announce m1 n rest in
      let before : announcements m.sent ≡ 0 =
        h.0 ∙ ap (λ b. if b then 1 else 0) (all_scored-false st m.subtask_scores left) in
      let after : announcements m1.sent ≡ 0 =
        ap (λ (k : ScoreManager F). announcements k.sent) same ∙ before in
      (
        count
            ∙ ap (λ k. if all_scored m1 then suc k else k) after
            ∙ ap (λ s. if all is_some (values s) then 1 else 0) (sym scores),
        subst AreNew (sym (scores ∙ ap (λ (k : ScoreManager F). k.subtask_scores) same))
            (insert-AreNew st none (some c.1) m.subtask_scores left h.1),
      )

  -- The subtasks that are still to come have no score yet.
  abbrev Pending : HashMap ℕ (Option F) → ScoreManager F → Type 0
  Pending rest m =
      (st : ℕ) → HashMap.get st rest ≡ some none → HashMap.get st m.subtask_scores ≡ some none

  score_subtask-Pending :
      (st : ℕ) (rest : HashMap ℕ (Option F)) (m n : ScoreManager F)
      → HashMap.get st rest ≡ none
      → Pending ((st, none) ∷ rest) m
      → score_subtask st m ≡ ok n
      → Pending rest n
  unfolding HashMap.get
  score_subtask-Pending st rest m n alone pending h j left =
      let (c, computed, (sent, e)) = score_subtask-ok st m n h in
      subst (λ (k : ScoreManager F). HashMap.get j k.subtask_scores ≡ some none) (sym e)
        (put_pending c)
    where
      put_pending :
          (c : Option (F × F)) → HashMap.get j (put st (second c) m.subtask_scores) ≡ some none
      put_pending none = pending j (ground (arith, left))
      put_pending (some c) = ground (
        arith,
        alone,
        left,
        pending j,
        get-insert st j (some c.1) m.subtask_scores,
        nat_beq_iff st j,
      )

  pub score_each-IsAnnounced :
      (rest : HashMap ℕ (Option F)) (m n : ScoreManager F)
      → AreNew rest
      → Pending rest m
      → IsAnnounced m
      → score_each rest m ≡ ok n
      → IsAnnounced n
  unfolding score_each HashMap.get score_subtask
  score_each-IsAnnounced [] m n new pending h e = subst IsAnnounced (ok-injective e) h
  score_each-IsAnnounced ((st, some x) ∷ rest) m n new pending h e =
      score_each-IsAnnounced rest m n new.1
        (λ j left. pending j (ground (arith, left, new.0, nat_beq_iff st j))) h e
  score_each-IsAnnounced ((st, none) ∷ rest) m n new pending h e =
      let (m1, scored, others) = bind-eq-ok (score_subtask st m) (score_each rest) e in
      let (c, computed, recorded) = bind-eq-ok (compute st m) (λ c. record_score st c m) scored in
      score_each-IsAnnounced rest m1 n new.1
        (score_subtask-Pending st rest m m1 new.0 pending scored)
        (record_score-IsAnnounced st c m m1 (pending st (ground (arith, nat_beq_iff st st))) h
          recorded)
        others

  -- Where the score of the task was sent once if all subtasks have a score, and never otherwise,
  -- and no subtask stands twice, so it is after a successful `score`.
  pub score-IsAnnounced :
      (st tc : ℕ) (x : F) (message : String) (m n : ScoreManager F)
      → IsAnnounced m
      → score st tc x message m ≡ ok n
      → IsAnnounced n
  unfolding score
  score-IsAnnounced st tc x message m n h e =
      let note = ioi_testcase_score st tc m.solution x message in
      let (m1, sent, each) =
        bind-eq-ok (send note (with_testcase tc x m m.sent)) (λ k. score_each k.subtask_scores k)
          e in
      let same = send-ok note (with_testcase tc x m m.sent) m1 sent in
      let announced : IsAnnounced m1 = subst IsAnnounced (sym same) h in
      score_each-IsAnnounced m1.subtask_scores m1 n announced.1 (λ j left. left) announced each

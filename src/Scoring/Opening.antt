-- ===== src/Scoring/Opening.antt =====
-- A new `ScoreManager`: whether the score of the task is sent.
use task_maker_rust.Base.{
  ℕ, ◌≡◌, ◌≢◌, refl, sym, ap, ◌∙◌, Bool, false, Option, none, some, [], ◌∷◌, String, if◌then◌else◌,
  arith, map, all, is_empty,
}
use task_maker_rust.Base.Results.{ok}
use task_maker_rust.Base.Tests.{nat_eq, nat_beq, nat_beq_iff, is_some}
use task_maker_rust.Base.HashMap
use task_maker_rust.Base.HashMap.{HashMap, get-insert, values, keys}
use task_maker_rust.Scoring.Numbers.{Score}
use task_maker_rust.Scoring.Manager.{ScoreManager, IoiTask, SubtaskInfo, new_manager}
use task_maker_rust.Base.Keyed.{get-map, map-get}
use task_maker_rust.Scoring.Started.{HasTestcases, mark, fresh, score_empty-eq}
use task_maker_rust.Scoring.Announced.{
  AreNew, announcements, IsAnnounced, map-AreNew, none_scored, score_each-IsAnnounced,
}
use task_maker_rust.Scoring.Filled.{new_manager-IsConsistent}

module _ {F : Type 0} ⦃fl : Score F⦄ where
  -- Subtasks and their scores side by side.
  all_scored-eq :
      (subtasks : HashMap ℕ (SubtaskInfo F)) (scores : HashMap ℕ (Option F))
      → keys scores ≡ keys subtasks
      → AreNew subtasks
      → ((st : ℕ) (info : SubtaskInfo F)
          → HashMap.get st subtasks ≡ some info
          → (v : Option F) × (HashMap.get st scores ≡ some v)
            × (is_some v ≡ is_empty info.testcases))
      → all is_some (values scores) ≡ all (λ e. is_empty (e.1).testcases) subtasks
  unfolding HashMap.get
  all_scored-eq [] [] same new h = refl
  all_scored-eq [] (y ∷ ys) same new h = cc
  all_scored-eq (x ∷ xs) [] same new h = cc
  all_scored-eq ((st, info) ∷ xs) ((j, o) ∷ ys) same new h =
      let mine : j ≡ st = ground (arith, same) in
      let others : keys ys ≡ keys xs = ground (arith, same) in
      let (v, found, e) = h st info (ground (arith, nat_beq_iff st st)) in
      let here : is_some o ≡ is_empty info.testcases =
        ground (arith, found, e, mine, nat_beq_iff j st) in
      let rest = all_scored-eq xs ys others new.1 (λ k i known.
        let ne : nat_beq st k ≡ false = ground (arith, nat_beq_iff st k, known, new.0) in
        let (w, at, is) = h k i (ground (arith, ne, known)) in
        (w, ground (arith, at, ne, mine), is)) in
      ground (arith, here, rest)

  new_manager-Announced :
      (task : IoiTask F) (solution : String) (receiver : Bool) (m : ScoreManager F)
      → AreNew task.subtasks
      → task.subtasks ≢ []
      → new_manager task solution receiver ≡ ok m
      → IsAnnounced m
  unfolding new_manager
  new_manager-Announced task solution receiver m new some_subtask e =
      score_each-IsAnnounced (map (λ e. (e.0, mark e.1)) task.subtasks)
        (fresh task solution receiver) m (map-AreNew mark task.subtasks new)
        (λ st left.
          let (info, known, e) = get-map mark st none task.subtasks left in
          map-get (λ _. none) st info task.subtasks known)
        (none_scored F task.subtasks some_subtask, map-AreNew (λ _. none) task.subtasks new)
        (sym (score_empty-eq task.subtasks _) ∙ e)

  -- Where the testcases of the subtasks are testcases of the task, which has at least one subtask
  -- and none twice, a new score manager whose creation succeeds has sent the score of the task
  -- once if no subtask has a testcase, and never otherwise, and so it is sent exactly where all
  -- subtasks have a score.
  pub new_manager-IsAnnounced :
      (task : IoiTask F) (solution : String) (receiver : Bool) (m : ScoreManager F)
      → AreNew task.subtasks
      → task.subtasks ≢ []
      → HasTestcases task
      → new_manager task solution receiver ≡ ok m
      → IsAnnounced m
        × (announcements m.sent
            ≡ (if all (λ e. is_empty (e.1).testcases) task.subtasks then 1 else 0))
  new_manager-IsAnnounced task solution receiver m new some_subtask has e =
      let announced = new_manager-Announced task solution receiver m new some_subtask e in
      let starts = (new_manager-IsConsistent task solution receiver m has e).1 in
      (
        announced,
        announced.0
            ∙ ap (λ b. if b then 1 else 0)
                (all_scored-eq task.subtasks m.subtask_scores starts.0 new starts.1),
      )

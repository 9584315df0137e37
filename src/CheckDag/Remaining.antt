-- ===== src/CheckDag/Remaining.antt =====
-- What task-maker-exec/src/check_dag.rs has left to visit, over one round of its visit.
use task_maker_rust.Base.{
  ℕ, zero, suc, ◌+◌, ◌≡◌, refl, ◌∙◌, inl, inr, subst, some, List, [], ◌∷◌, ok, ◌>>=◌, bind-eq-ok,
  ok-injective, length, length-append, arith,
}
use task_maker_rust.Base.Tests.{nat_eq, Option-cases}
use task_maker_rust.Base.HashMap
use task_maker_rust.Base.HashMap.{HashMap}
use task_maker_rust.CheckDag.Errors.{Progress}
use task_maker_rust.CheckDag.Visiting.{count_down, count_all_down, visit_files, waiting}

-- The groups that wait, and those that are ready.
abbrev pub remaining : Progress → ℕ
remaining p = waiting p.num_dependencies + length p.ready_groups

waiting-insert-zero :
    (group : ℕ) (counts : HashMap ℕ ℕ)
    → HashMap.get group counts ≡ some 1
    → suc (waiting (HashMap.insert group 0 counts)) ≡ waiting counts
unfolding waiting HashMap.get HashMap.insert
waiting-insert-zero group [] h = cc
waiting-insert-zero group ((j, zero) ∷ counts) h = ground (arith, waiting-insert-zero group counts)
waiting-insert-zero group ((j, suc m) ∷ counts) h = ground (arith, waiting-insert-zero group counts)

waiting-insert-suc :
    (group n : ℕ) (counts : HashMap ℕ ℕ)
    → HashMap.get group counts ≡ some (suc (suc n))
    → waiting (HashMap.insert group (suc n) counts) ≡ waiting counts
unfolding waiting HashMap.get HashMap.insert
waiting-insert-suc group n [] h = cc
waiting-insert-suc group n ((j, zero) ∷ counts) h =
    ground (arith, waiting-insert-suc group n counts)
waiting-insert-suc group n ((j, suc m) ∷ counts) h =
    ground (arith, waiting-insert-suc group n counts)

-- A group that becomes ready no longer waits.
pub record Counted (p q : Progress) : Type 0 where
  pub same_remaining : remaining q ≡ remaining p
  pub same_files : q.ready_files ≡ p.ready_files

count_down-Counted : (group : ℕ) (p q : Progress) → count_down group p ≡ ok q → Counted p q
unfolding count_down
count_down-Counted group p q h = elim (Option-cases (HashMap.get group p.num_dependencies)) [
  | inl gone ↦ absurd (ground (arith, gone))
  | inr (zero, at) ↦ absurd (ground (arith, at))
  | inr (suc zero, at) ↦ subst (Counted p) (ok-injective (rw (at, count_down) at h)) (record {
    same_remaining = omega (
      arith,
      waiting-insert-zero group p.num_dependencies at,
      length-append p.ready_groups (group ∷ []),
    );
    same_files = refl;
  })
  | inr (suc (suc n), at) ↦ subst (Counted p) (ok-injective (rw (at, count_down) at h)) (record {
    same_remaining = ground (arith, waiting-insert-suc group n p.num_dependencies at);
    same_files = refl;
  })
]

Counted-trans : (p q r : Progress) → Counted p q → Counted q r → Counted p r
Counted-trans p q r h k = record {
  same_remaining = k.same_remaining ∙ h.same_remaining;
  same_files = k.same_files ∙ h.same_files;
}

count_all_down-Counted :
    (groups : List ℕ) (p q : Progress) → count_all_down groups p ≡ ok q → Counted p q
unfolding count_all_down
count_all_down-Counted [] p q h =
    subst (Counted p) (ok-injective h) (record { same_remaining = refl; same_files = refl })
count_all_down-Counted (group ∷ groups) p q h =
    let (r, e, k) = bind-eq-ok (count_down group p) _ h in
    Counted-trans p r q (count_down-Counted group p r e) (count_all_down-Counted groups r q k)

pub visit_files-Counted :
    (files : List ℕ) (p q : Progress) → visit_files files p ≡ ok q → Counted p q
unfolding visit_files
visit_files-Counted [] p q h =
    subst (Counted p) (ok-injective h) (record { same_remaining = refl; same_files = refl })
visit_files-Counted (file ∷ files) p q h = elim (Option-cases (HashMap.get file p.dependencies)) [
  | inl gone ↦ visit_files-Counted files p q (rw (gone, visit_files) at h)
  | inr (groups, at) ↦
      let step : (count_all_down groups p >>= visit_files files) ≡ ok q =
        rw (at, visit_files) at h in
      let (r, e, k) = bind-eq-ok (count_all_down groups p) _ step in
      Counted-trans p r q (count_all_down-Counted groups p r e) (visit_files-Counted files r q k)
]

-- ===== src/CheckDag/Known.antt =====
-- What task-maker-exec/src/check_dag.rs knows of the files and the groups of a DAG.
use task_maker_rust.Base.{
  ℕ, zero, suc, ◌≡◌, refl, ◌∙◌, inl, inr, subst, String, true, List, [], ◌∷◌, ◌||◌, ◌&&◌, Result,
  ok, ◌>>=◌, bind-eq-ok, ok-injective, is_empty, All, All-imp, arith,
}
use task_maker_rust.Base.Tests.{if_ind, nat_eq, Option-cases, Bool-cases}
use task_maker_rust.Base.HashMap
use task_maker_rust.Base.HashMap.{HashMap}
use task_maker_rust.Base.HashSet
use task_maker_rust.Base.HashSet.{HashSet}
use task_maker_rust.Dag.Group.{ExecutionGroup}
use task_maker_rust.Dag.Data.{ExecutionDagData, ExecutionDagWatchSet}
use task_maker_rust.CheckDag.Errors.{Stop, or_panic, Progress}
use task_maker_rust.CheckDag.Adding.{add_groups}
use task_maker_rust.CheckDag.Visiting.{
  count_down, count_all_down, visit_files, visit_groups, visit_round, visit, find_missing,
  find_unreached, check_executions, nothing_known, collect, check_dag,
}
use task_maker_rust.CheckDag.Learning.{makes, has_group, add_groups-Learns, add_provided-Learns}

-- The visit learns of nothing.
abbrev SameKnown : Progress → Progress → Type 0
SameKnown p q = (q.known_files ≡ p.known_files) × (q.known_execs ≡ p.known_execs)

SameKnown-ok : (p q : Progress) → ◌≡◌ {A = Result Stop Progress} (ok p) (ok q) → SameKnown p q
SameKnown-ok p q h = subst (SameKnown p) (ok-injective h) (refl, refl)

SameKnown-trans : (p q r : Progress) → SameKnown p q → SameKnown q r → SameKnown p r
SameKnown-trans p q r h k = (k.0 ∙ h.0, k.1 ∙ h.1)

count_down-SameKnown : (group : ℕ) (p q : Progress) → count_down group p ≡ ok q → SameKnown p q
unfolding count_down
count_down-SameKnown group p q h = elim (Option-cases (HashMap.get group p.num_dependencies)) [
  | inl gone ↦ absurd (ground (arith, gone))
  | inr (zero, at) ↦ absurd (ground (arith, at))
  | inr (suc n, at) ↦ subst (SameKnown p) (ok-injective (rw (at, count_down) at h)) (refl, refl)
]

count_all_down-SameKnown :
    (groups : List ℕ) (p q : Progress) → count_all_down groups p ≡ ok q → SameKnown p q
unfolding count_all_down
count_all_down-SameKnown [] p q h = SameKnown-ok p q h
count_all_down-SameKnown (group ∷ groups) p q h =
    let (r, e, k) = bind-eq-ok (count_down group p) _ h in
    SameKnown-trans p r q (count_down-SameKnown group p r e) (count_all_down-SameKnown groups r q k)

visit_files-SameKnown :
    (files : List ℕ) (p q : Progress) → visit_files files p ≡ ok q → SameKnown p q
unfolding visit_files
visit_files-SameKnown [] p q h = SameKnown-ok p q h
visit_files-SameKnown (file ∷ files) p q h = elim (Option-cases (HashMap.get file p.dependencies)) [
  | inl gone ↦ visit_files-SameKnown files p q (rw (gone, visit_files) at h)
  | inr (groups, at) ↦
      let step : (count_all_down groups p >>= visit_files files) ≡ ok q =
        rw (at, visit_files) at h in
      let (r, e, k) = bind-eq-ok (count_all_down groups p) _ step in
      SameKnown-trans p r q (count_all_down-SameKnown groups p r e)
        (visit_files-SameKnown files r q k)
]

module _ {F : Type 0} where
  visit_groups-SameKnown :
      (groups : HashMap ℕ (ExecutionGroup F)) (ready : List ℕ) (p q : Progress)
      → visit_groups groups ready p ≡ ok q
      → SameKnown p q
  unfolding visit_groups
  visit_groups-SameKnown groups [] p q h = SameKnown-ok p q h
  visit_groups-SameKnown groups (g ∷ ready) p q h =
      let (group, _, k) = bind-eq-ok (or_panic (HashMap.get g groups)) _ h in
      visit_groups-SameKnown groups ready _ q k

  visit_round-SameKnown :
      (groups : HashMap ℕ (ExecutionGroup F)) (p q : Progress)
      → visit_round groups p ≡ ok q
      → SameKnown p q
  unfolding visit_round
  visit_round-SameKnown groups p q h =
      let (r, e, k) = bind-eq-ok (visit_files p.ready_files (record p { ready_files = [] })) _ h in
      SameKnown-trans p r q
        (visit_files-SameKnown p.ready_files (record p { ready_files = [] }) r e)
        (visit_groups-SameKnown groups r.ready_groups (record r { ready_groups = [] }) q k)

  visit-SameKnown :
      (fuel : ℕ) (groups : HashMap ℕ (ExecutionGroup F)) (p q : Progress)
      → visit fuel groups p ≡ ok q
      → SameKnown p q
  unfolding visit
  visit-SameKnown zero groups p q h = cc
  visit-SameKnown (suc fuel) groups p q h =
      if_ind (λ r. r ≡ ok q → SameKnown p q) (is_empty p.ready_groups && is_empty p.ready_files)
        (λ _ e. SameKnown-ok p q e)
        (λ _ e.
          let (r, e1, k) = bind-eq-ok (visit_round groups p) _ e in
          SameKnown-trans p r q (visit_round-SameKnown groups p r e1)
            (visit-SameKnown fuel groups r q k))
        h

find_missing-known :
    (description : String) (files : List ℕ) (known : HashSet ℕ)
    → find_missing description files known ≡ ok tt
    → All (λ f. HashSet.contains f known ≡ true) files
unfolding find_missing
find_missing-known description [] known h = tt
find_missing-known description (file ∷ files) known h =
    elim (Bool-cases (HashSet.contains file known)) [
      | inl there ↦
          (there, find_missing-known description files known (rw (there, find_missing) at h))
      | inr gone ↦ absurd (ground (arith, gone))
    ]

check_executions-known :
    (execs : List ℕ) (known : HashSet ℕ)
    → check_executions execs known ≡ ok tt
    → All (λ e. HashSet.contains e known ≡ true) execs
unfolding check_executions
check_executions-known [] known h = tt
check_executions-known (exec ∷ execs) known h = elim (Bool-cases (HashSet.contains exec known)) [
  | inl there ↦ (there, check_executions-known execs known (rw (there, check_executions) at h))
  | inr gone ↦ absurd (ground (arith, gone))
]

module _ {F : Type 0} where
  -- A file that the DAG provides or that one of its groups makes.
  abbrev pub IsThere : ExecutionDagData F → ℕ → Type 0
  IsThere dag f =
      (makes dag.execution_groups f || HashSet.contains f (HashMap.keys dag.provided_files)) ≡ true

  collect-Learns :
      (dag : ExecutionDagData F) (p : Progress)
      → collect dag ≡ ok p
      → ((f : ℕ) → HashSet.contains f p.known_files ≡ true → IsThere dag f)
        × ((g : ℕ)
            → HashSet.contains g p.known_execs ≡ true
            → has_group dag.execution_groups g ≡ true)
  unfolding collect HashSet.contains
  collect-Learns dag p h =
      let (r, e, k) = bind-eq-ok (add_groups dag.execution_groups nothing_known) _ h in
      let first = add_groups-Learns dag.execution_groups nothing_known r e in
      let second = add_provided-Learns (HashMap.keys dag.provided_files) r p k in
      (
        λ f there. ground (arith, first.file_known f, second.file_known f),
        λ g there. ground (arith, first.group_known g, second.group_known g),
      )

  -- Where `check_dag` accepts a DAG, each file that the callbacks ask for is provided or an output
  -- of one of its groups, and each execution that they ask for is one of its groups.
  pub check_dag-known :
      (dependency_of : String → String) (dag : ExecutionDagData F)
      (callbacks : ExecutionDagWatchSet)
      → check_dag dependency_of dag callbacks ≡ ok tt
      → All (IsThere dag) callbacks.files
        × All (λ g. has_group dag.execution_groups g ≡ true) callbacks.executions
  unfolding check_dag
  check_dag-known d dag callbacks h =
      let (p, e1, h1) = bind-eq-ok (collect dag) _ h in
      let (q, e2, h2) = bind-eq-ok (visit _ dag.execution_groups p) _ h1 in
      let (_, e3, h3) =
        bind-eq-ok (find_unreached d dag.execution_groups q.known_files q.num_dependencies) _ h2 in
      let (_, e4, e5) =
        bind-eq-ok (find_missing "File required by a callback" callbacks.files q.known_files) _
          h3 in
      let same = visit-SameKnown _ dag.execution_groups p q e2 in
      let learnt = collect-Learns dag p e1 in
      (
        All-imp callbacks.files
            (λ f there. learnt.0 f (subst (λ s. HashSet.contains f s ≡ true) same.0 there))
            (find_missing-known _ callbacks.files q.known_files e4),
        All-imp callbacks.executions
            (λ g there. learnt.1 g (subst (λ s. HashSet.contains g s ≡ true) same.1 there))
            (check_executions-known callbacks.executions q.known_execs e5),
      )

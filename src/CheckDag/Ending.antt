-- ===== src/CheckDag/Ending.antt =====
-- The end of the visit of task-maker-exec/src/check_dag.rs.
use task_maker_rust.Base.{
  ℕ, zero, suc, ◌≤◌, ◌≡◌, ◌≢◌, ◌⊎◌, refl, sym, ◌∙◌, ap, inl, inr, subst, String, Option, none, some,
  List, [], ◌∷◌, ◌++◌, ◌&&◌, Result, ok, err, ◌>>=◌, bind-eq-ok, ok-injective, is_empty, length,
  arith,
}
use task_maker_rust.Base.Tests.{if_ind, nat_eq, Option-cases}
use task_maker_rust.Base.HashMap
use task_maker_rust.Base.HashMap.{HashMap}
use task_maker_rust.Base.HashSet
use task_maker_rust.Base.HashSet.{HashSet}
use task_maker_rust.Dag.Group.{ExecutionGroup, Fifo, dependencies, outputs}
use task_maker_rust.Dag.Data.{ExecutionDagData, ExecutionDagWatchSet}
use task_maker_rust.CheckDag.Errors.{Stop, out_of_fuel, or_panic, Progress}
use task_maker_rust.CheckDag.Adding.{check_fifos, add_outputs, add_group, add_groups, add_provided}
use task_maker_rust.CheckDag.Visiting.{
  count_down, count_all_down, visit_files, visit_groups, visit_round, visit, find_missing,
  find_unreached, check_executions, waiting, nothing_known, collect, check_dag,
}
use task_maker_rust.CheckDag.Remaining.{remaining, visit_files-Counted}

-- A chain ends if its parts do.
bind-ends {ℓ κ} :
    {A : Type ℓ} {B : Type κ} (r : Result Stop A) (f : A → Result Stop B)
    → r ≢ err out_of_fuel
    → ((a : A) → r ≡ ok a → f a ≢ err out_of_fuel)
    → (r >>= f) ≢ err out_of_fuel
unfolding ◌>>=◌
bind-ends (ok a) f h k = k a refl
bind-ends (err e) f h k = λ same. h (ground arith)

-- The loops end, one by one.
check_fifos-ends : (fifos : List Fifo) (seen : HashSet ℕ) → check_fifos fifos seen ≢ err out_of_fuel
unfolding check_fifos
check_fifos-ends [] seen = λ e. cc
check_fifos-ends (fifo ∷ fifos) seen =
    ground (arith, check_fifos-ends fifos (HashSet.insert fifo.uuid seen))

add_outputs-ends : (outs : List ℕ) (known : HashSet ℕ) → add_outputs outs known ≢ err out_of_fuel
unfolding add_outputs
add_outputs-ends [] known = λ e. cc
add_outputs-ends (out ∷ outs) known =
    ground (arith, add_outputs-ends outs (HashSet.insert out known))

add_provided-ends : (uuids : List ℕ) (p : Progress) → add_provided uuids p ≢ err out_of_fuel
unfolding add_provided
add_provided-ends [] p = λ e. cc
add_provided-ends (uuid ∷ uuids) p = ground (
  arith,
  add_provided-ends uuids (record p {
    known_files = HashSet.insert uuid p.known_files;
    ready_files = p.ready_files ++ uuid ∷ [];
  }),
)

count_down-ends : (group : ℕ) (p : Progress) → count_down group p ≢ err out_of_fuel
unfolding count_down
count_down-ends group p = ground arith

count_all_down-ends : (groups : List ℕ) (p : Progress) → count_all_down groups p ≢ err out_of_fuel
unfolding count_all_down
count_all_down-ends [] p = λ e. cc
count_all_down-ends (group ∷ groups) p =
    bind-ends (count_down group p) _ (count_down-ends group p) (λ q _. count_all_down-ends groups q)

visit_files-ends : (files : List ℕ) (p : Progress) → visit_files files p ≢ err out_of_fuel
unfolding visit_files
visit_files-ends [] p = λ e. cc
visit_files-ends (file ∷ files) p = elim (Option-cases (HashMap.get file p.dependencies)) [
  | inl gone ↦ rw (visit_files, gone) (visit_files-ends files p)
  | inr (groups, at) ↦
      rw (visit_files, at)
        (bind-ends (count_all_down groups p) _ (count_all_down-ends groups p)
          (λ q _. visit_files-ends files q))
]

find_missing-ends :
    (description : String) (deps : List ℕ) (known : HashSet ℕ)
    → find_missing description deps known ≢ err out_of_fuel
unfolding find_missing
find_missing-ends description [] known = λ e. cc
find_missing-ends description (dep ∷ deps) known =
    ground (arith, find_missing-ends description deps known)

check_executions-ends :
    (execs : List ℕ) (known : HashSet ℕ) → check_executions execs known ≢ err out_of_fuel
unfolding check_executions
check_executions-ends [] known = λ e. cc
check_executions-ends (exec ∷ execs) known = ground (arith, check_executions-ends execs known)

or_panic-ends {ℓ} : {A : Type ℓ} (o : Option A) → or_panic o ≢ err out_of_fuel
or_panic-ends none = λ e. cc
or_panic-ends (some a) = λ e. cc

module _ {F : Type 0} where
  add_group-ends : (g : ℕ × ExecutionGroup F) (p : Progress) → add_group g p ≢ err out_of_fuel
  unfolding add_group ◌>>=◌
  add_group-ends (group_uuid, group) p =
      ground (arith, check_fifos-ends group.fifo [], add_outputs-ends (outputs group) p.known_files)

  add_groups-ends :
      (groups : HashMap ℕ (ExecutionGroup F)) (p : Progress) → add_groups groups p ≢ err out_of_fuel
  unfolding add_groups
  add_groups-ends [] p = λ e. cc
  add_groups-ends (g ∷ groups) p =
      bind-ends (add_group g p) _ (add_group-ends g p) (λ q _. add_groups-ends groups q)

  find_unreached-ends :
      (dependency_of : String → String) (groups : HashMap ℕ (ExecutionGroup F)) (known : HashSet ℕ)
      (counts : HashMap ℕ ℕ)
      → find_unreached dependency_of groups known counts ≢ err out_of_fuel
  unfolding find_unreached
  find_unreached-ends d groups known [] = λ e. cc
  find_unreached-ends d groups known ((g, zero) ∷ counts) =
      find_unreached-ends d groups known counts
  find_unreached-ends d groups known ((g, suc n) ∷ counts) =
      bind-ends (or_panic (HashMap.get g groups)) _ (or_panic-ends (HashMap.get g groups))
        (λ group _.
          bind-ends (find_missing (d group.description) (dependencies group) known) _
            (find_missing-ends (d group.description) (dependencies group) known) (λ _ _ e. cc))

  visit_groups-ends :
      (groups : HashMap ℕ (ExecutionGroup F)) (ready : List ℕ) (p : Progress)
      → visit_groups groups ready p ≢ err out_of_fuel
  unfolding visit_groups
  visit_groups-ends groups [] p = λ e. cc
  visit_groups-ends groups (g ∷ ready) p =
      bind-ends (or_panic (HashMap.get g groups)) _ (or_panic-ends (HashMap.get g groups))
        (λ group _. visit_groups-ends groups ready _)

  -- The queue of the groups stays as it is, and so do the counts.
  visit_groups-same :
      (groups : HashMap ℕ (ExecutionGroup F)) (ready : List ℕ) (p q : Progress)
      → visit_groups groups ready p ≡ ok q
      → (q.num_dependencies ≡ p.num_dependencies) × (q.ready_groups ≡ p.ready_groups)
  unfolding visit_groups
  visit_groups-same groups [] p q h =
      subst
        (λ (r : Progress).
          (r.num_dependencies ≡ p.num_dependencies) × (r.ready_groups ≡ p.ready_groups))
        (ok-injective h) (refl, refl)
  visit_groups-same groups (g ∷ ready) p q h =
      let (group, _, k) = bind-eq-ok (or_panic (HashMap.get g groups)) _ h in
      visit_groups-same groups ready _ q k

  visit_groups-none :
      (groups : HashMap ℕ (ExecutionGroup F)) (ready : List ℕ) (p q : Progress)
      → visit_groups groups ready p ≡ ok q
      → length ready ≡ 0
      → q.ready_files ≡ p.ready_files
  unfolding visit_groups
  visit_groups-none groups [] p q h e = ap (λ (r : Progress). r.ready_files) (sym (ok-injective h))
  visit_groups-none groups (g ∷ ready) p q h e = absurd (omega arith)

  -- After a round no group is ready, and either the visit is over or a group less is left.
  visit_round-less :
      (groups : HashMap ℕ (ExecutionGroup F)) (p q : Progress)
      → visit_round groups p ≡ ok q
      → (q.ready_groups ≡ []) × ((q.ready_files ≡ []) ⊎ (suc (remaining q) ≤ remaining p))
  unfolding visit_round
  visit_round-less groups p q h =
      let (p1, e, k) = bind-eq-ok (visit_files p.ready_files (record p { ready_files = [] })) _ h in
      let counted = visit_files-Counted p.ready_files (record p { ready_files = [] }) p1 e in
      let same = visit_groups-same groups p1.ready_groups (record p1 { ready_groups = [] }) q k in
      (
        same.1,
        elim (Nat_cases (length p1.ready_groups)) [
          | inl none_ready ↦ inl (
              visit_groups-none groups p1.ready_groups (record p1 { ready_groups = [] }) q k
                none_ready
              ∙ counted.same_files)
          | inr (n, some_ready) ↦
              inr (omega (arith, counted.same_remaining, ap waiting same.0, ap length same.1))
        ],
      )
    where
      Nat_cases : (n : ℕ) → (n ≡ 0) ⊎ ((m : ℕ) × (n ≡ suc m))
      Nat_cases zero = inl refl
      Nat_cases (suc m) = inr (m, refl)

  visit-over :
      (fuel : ℕ) (groups : HashMap ℕ (ExecutionGroup F)) (p : Progress)
      → p.ready_groups ≡ []
      → p.ready_files ≡ []
      → visit (suc fuel) groups p ≡ ok p
  unfolding visit
  visit-over fuel groups p e k = rw (visit, e, k) refl

  visit_round-ends :
      (groups : HashMap ℕ (ExecutionGroup F)) (p : Progress)
      → visit_round groups p ≢ err out_of_fuel
  unfolding visit_round
  visit_round-ends groups p =
      bind-ends (visit_files p.ready_files (record p { ready_files = [] })) _
        (visit_files-ends p.ready_files (record p { ready_files = [] }))
        (λ p1 _. visit_groups-ends groups p1.ready_groups (record p1 { ready_groups = [] }))

  visit-ends :
      (fuel : ℕ) (groups : HashMap ℕ (ExecutionGroup F)) (p : Progress)
      → suc (suc (remaining p)) ≤ fuel
      → visit fuel groups p ≢ err out_of_fuel
  unfolding visit
  visit-ends zero groups p h = absurd (omega arith)
  visit-ends (suc zero) groups p h = absurd (omega arith)
  visit-ends (suc (suc fuel)) groups p h =
      if_ind (λ r. r ≢ err out_of_fuel) (is_empty p.ready_groups && is_empty p.ready_files)
        (λ _ e. cc)
        (λ _. bind-ends (visit_round groups p) _ (visit_round-ends groups p) (λ q e.
          let (none_ready, next) = visit_round-less groups p q e in
          elim next [
            | inl no_files ↦
                λ k. absurd (ground (arith, visit-over fuel groups q none_ready no_files))
            | inr less ↦ visit-ends (suc fuel) groups q (omega arith)
          ]))

-- `check_dag` ends on every DAG and all callbacks, cycles included: the rounds of its visit are at
-- most two more than the groups that wait or are ready at its start.
pub check_dag-ne-out_of_fuel :
    {F : Type 0} (dependency_of : String → String) (dag : ExecutionDagData F)
    (callbacks : ExecutionDagWatchSet)
    → check_dag dependency_of dag callbacks ≢ err out_of_fuel
unfolding check_dag collect
check_dag-ne-out_of_fuel d dag callbacks =
    bind-ends (collect dag) _
      (bind-ends (add_groups dag.execution_groups nothing_known) _
        (add_groups-ends dag.execution_groups nothing_known)
        (λ p _. add_provided-ends (HashMap.keys dag.provided_files) p))
      (λ p _.
        bind-ends (visit (suc (suc (remaining p))) dag.execution_groups p) _
          (visit-ends (suc (suc (remaining p))) dag.execution_groups p (omega arith))
          (λ q _.
            bind-ends (find_unreached d dag.execution_groups q.known_files q.num_dependencies) _
              (find_unreached-ends d dag.execution_groups q.known_files q.num_dependencies)
              (λ _ _.
                bind-ends (find_missing "File required by a callback" callbacks.files q.known_files)
                  _ (find_missing-ends "File required by a callback" callbacks.files q.known_files)
                  (λ _ _. check_executions-ends callbacks.executions q.known_execs))))

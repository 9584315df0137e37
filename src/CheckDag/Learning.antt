-- ===== src/CheckDag/Learning.antt =====
-- The files and groups that task-maker-exec/src/check_dag.rs knows before the visit.
use task_maker_rust.Base.{
  ℕ, ◌≡◌, refl, sym, ap, inl, inr, subst, Bool, false, List, [], ◌∷◌, ◌||◌, ok, bind-eq-ok,
  ok-injective, is_empty, arith,
}
use task_maker_rust.Base.Tests.{nat_eq, ◌==◌, Bool-cases}
use task_maker_rust.Base.HashMap.{HashMap}
use task_maker_rust.Base.HashSet
use task_maker_rust.Base.HashSet.{HashSet}
use task_maker_rust.Dag.Group.{ExecutionGroup, outputs}
use task_maker_rust.CheckDag.Errors.{Progress}
use task_maker_rust.CheckDag.Adding.{check_fifos, add_outputs, add_group, add_groups, add_provided}

module _ {F : Type 0} where
  -- Whether the file is an output of one of the groups.
  abbrev pub makes : HashMap ℕ (ExecutionGroup F) → ℕ → Bool
  makes [] file = false
  makes ((_, group) ∷ groups) file = HashSet.contains file (outputs group) || makes groups file

  -- Whether one of the groups has the identifier.
  abbrev pub has_group : HashMap ℕ (ExecutionGroup F) → ℕ → Bool
  has_group [] uuid = false
  has_group ((_, group) ∷ groups) uuid = group.uuid == uuid || has_group groups uuid

add_outputs-known :
    (outs : List ℕ) (known set : HashSet ℕ) (file : ℕ)
    → add_outputs outs known ≡ ok set
    → HashSet.contains file set ≡ (HashSet.contains file outs || HashSet.contains file known)
unfolding add_outputs HashSet.contains
add_outputs-known [] known set file h = ap (HashSet.contains file) (sym (ok-injective h))
add_outputs-known (out ∷ outs) known set file h = elim (Bool-cases (HashSet.contains out known)) [
  | inl twice ↦ absurd (ground (arith, twice))
  | inr new ↦
      let rest =
        add_outputs-known outs (HashSet.insert out known) set file (rw (new, add_outputs) at h) in
      ground (arith, HashSet.contains-insert out file known, rest)
]

-- What the check knows afterwards is what it knew before, with the given files and groups.
pub record Learns (p q : Progress) (files groups : ℕ → Bool) : Type 0 where
  pub file_known :
      (f : ℕ) → HashSet.contains f q.known_files ≡ (files f || HashSet.contains f p.known_files)
  pub group_known :
      (g : ℕ) → HashSet.contains g q.known_execs ≡ (groups g || HashSet.contains g p.known_execs)

module _ {F : Type 0} where
  add_group-Learns :
      (key : ℕ) (group : ExecutionGroup F) (p q : Progress)
      → add_group (key, group) p ≡ ok q
      → Learns p q (λ f. HashSet.contains f (outputs group)) (λ g. group.uuid == g)
  unfolding add_group
  add_group-Learns key group p q h = elim (Bool-cases (is_empty group.executions)) [
    | inl empty ↦ absurd (ground (arith, empty))
    | inr full ↦
        let (_, _, h1) = bind-eq-ok (check_fifos group.fifo []) _ (rw (full, add_group) at h) in
        elim (Bool-cases (HashSet.contains group.uuid p.known_execs)) [
          | inl twice ↦ absurd (ground (arith, twice))
          | inr new ↦
              let (files, e, h2) =
                bind-eq-ok (add_outputs (outputs group) p.known_files) _ (rw new at h1) in
              subst
                (λ r. Learns p r (λ f. HashSet.contains f (outputs group)) (λ g. group.uuid == g))
                (ok-injective h2)
                (record {
                  file_known = λ f. add_outputs-known (outputs group) p.known_files files f e;
                  group_known = λ g. HashSet.contains-insert group.uuid g p.known_execs;
                })
        ]
  ]

  pub add_groups-Learns :
      (groups : HashMap ℕ (ExecutionGroup F)) (p q : Progress)
      → add_groups groups p ≡ ok q
      → Learns p q (makes groups) (has_group groups)
  unfolding add_groups
  add_groups-Learns [] p q h =
      subst (λ r. Learns p r (λ _. false) (λ _. false)) (ok-injective h)
        (record { file_known = λ f. refl; group_known = λ g. refl })
  add_groups-Learns ((key, group) ∷ groups) p q h =
      let (r, e, k) = bind-eq-ok (add_group (key, group) p) _ h in
      let first = add_group-Learns key group p r e in
      let rest = add_groups-Learns groups r q k in
      record {
        file_known = λ f. ground (arith, first.file_known f, rest.file_known f);
        group_known = λ g. ground (arith, first.group_known g, rest.group_known g);
      }

pub add_provided-Learns :
    (uuids : List ℕ) (p q : Progress)
    → add_provided uuids p ≡ ok q
    → Learns p q (λ f. HashSet.contains f uuids) (λ _. false)
unfolding add_provided HashSet.contains
add_provided-Learns [] p q h =
    subst (λ r. Learns p r (λ _. false) (λ _. false)) (ok-injective h)
      (record { file_known = λ f. refl; group_known = λ g. refl })
add_provided-Learns (uuid ∷ uuids) p q h = elim (Bool-cases (HashSet.contains uuid p.known_files)) [
  | inl twice ↦ absurd (ground (arith, twice))
  | inr new ↦
      let rest = add_provided-Learns uuids _ q (rw (new, add_provided) at h) in
      record {
        file_known =
            λ f. ground (arith, HashSet.contains-insert uuid f p.known_files, rest.file_known f);
        group_known = rest.group_known;
      }
]

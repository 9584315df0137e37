-- ===== src/CheckDag/Collected.antt =====
-- What task-maker-exec/src/check_dag.rs has collected when the visit starts.
use task_maker_rust.Base.{
  ℕ, ◌+◌, ◌≤◌, ◌≡◌, refl, ◌∙◌, ap, inl, inr, subst, some, List, [], ◌∷◌, ◌++◌, ◌&&◌, if◌then◌else◌,
  ok, bind-eq-ok, ok-injective, is_empty, length, arith,
}
use task_maker_rust.Base.Tests.{nat_eq, nat_beq, nat_beq_iff, Bool-cases}
use task_maker_rust.Base.Counts.{occurrences, occurrences-append}
use task_maker_rust.Base.HashMap
use task_maker_rust.Base.HashMap.{HashMap}
use task_maker_rust.Base.HashSet
use task_maker_rust.Base.HashSet.{HashSet}
use task_maker_rust.Dag.Group.{ExecutionGroup, dependencies, outputs}
use task_maker_rust.CheckDag.Errors.{Progress}
use task_maker_rust.CheckDag.Adding.{
  or_empty, add_dependencies, check_fifos, add_outputs, add_group, add_provided,
}

-- 1 if the file is in the set.
abbrev pub one_if_in : ℕ → HashSet ℕ → ℕ
one_if_in f set = if HashSet.contains f set then 1 else 0

add_outputs-once :
    (outs : List ℕ) (known set : HashSet ℕ) (f : ℕ)
    → add_outputs outs known ≡ ok set
    → occurrences f outs + one_if_in f known ≡ one_if_in f set
unfolding add_outputs
add_outputs-once [] known set f h = omega (arith, ap (one_if_in f) (ok-injective h))
add_outputs-once (out ∷ outs) known set f h = elim (Bool-cases (HashSet.contains out known)) [
  | inl twice ↦ absurd (ground (arith, twice))
  | inr new ↦
      let rest =
        add_outputs-once outs (HashSet.insert out known) set f (rw (new, add_outputs) at h) in
      ground (arith, HashSet.contains-insert out f known, rest, nat_beq_iff out f)
]

-- What the loop over the provided files adds.
pub record Provides (uuids : List ℕ) (p q : Progress) : Type 0 where
  pub once : (f : ℕ) → occurrences f uuids + one_if_in f p.known_files ≤ 1
  pub queue : q.ready_files ≡ p.ready_files ++ uuids
  pub same_counts : q.num_dependencies ≡ p.num_dependencies
  pub same_lists : q.dependencies ≡ p.dependencies
  pub same_groups : q.ready_groups ≡ p.ready_groups

append_nil : (xs : List ℕ) → xs ≡ xs ++ []
append_nil [] = refl
append_nil (x ∷ xs) = ap (λ ys. x ∷ ys) (append_nil xs)

append_assoc : (xs ys zs : List ℕ) → (xs ++ ys) ++ zs ≡ xs ++ (ys ++ zs)
append_assoc [] ys zs = refl
append_assoc (x ∷ xs) ys zs = ap (λ l. x ∷ l) (append_assoc xs ys zs)

pub add_provided-Provides :
    (uuids : List ℕ) (p q : Progress) → add_provided uuids p ≡ ok q → Provides uuids p q
unfolding add_provided
add_provided-Provides [] p q h = subst (Provides [] p) (ok-injective h) (record {
  once = λ f. ground arith;
  queue = append_nil p.ready_files;
  same_counts = refl;
  same_lists = refl;
  same_groups = refl;
})
add_provided-Provides (uuid ∷ uuids) p q h =
    elim (Bool-cases (HashSet.contains uuid p.known_files)) [
      | inl twice ↦ absurd (ground (arith, twice))
      | inr new ↦
          let rest = add_provided-Provides uuids _ q (rw (new, add_provided) at h) in
          record {
            once = λ f. ground (
              arith,
              HashSet.contains-insert uuid f p.known_files,
              rest.once f,
              nat_beq_iff uuid f,
            );
            queue = rest.queue ∙ append_assoc p.ready_files (uuid ∷ []) uuids;
            same_counts = rest.same_counts;
            same_lists = rest.same_lists;
            same_groups = rest.same_groups;
          }
    ]

-- One more group under a file.
push-occurrences :
    (group f k file : ℕ) (deps : HashMap ℕ (List ℕ))
    → occurrences k (
        or_empty (
          HashMap.get f
            (HashMap.insert file (or_empty (HashMap.get file deps) ++ group ∷ []) deps)))
      ≡ occurrences k (or_empty (HashMap.get f deps))
        + (if nat_beq group k && nat_beq file f then 1 else 0)
push-occurrences group f k file deps =
    let pushed = or_empty (HashMap.get file deps) ++ group ∷ [] in
    elim (Bool-cases (nat_beq file f)) [
      | inl same ↦
          let found : HashMap.get f (HashMap.insert file pushed deps) ≡ some pushed =
            rw same at (HashMap.get-insert file f pushed deps) in
          let equal =
            ap (λ x. occurrences k (or_empty (HashMap.get x deps))) ((nat_beq_iff file f).0 same) in
          ap (λ o. occurrences k (or_empty o)) found
          ∙ ground (
            arith,
            same,
            equal,
            occurrences-append k (or_empty (HashMap.get file deps)) (group ∷ []),
          )
      | inr other ↦
          let found : HashMap.get f (HashMap.insert file pushed deps) ≡ HashMap.get f deps =
            rw other at (HashMap.get-insert file f pushed deps) in
          ap (λ o. occurrences k (or_empty o)) found ∙ ground (arith, other)
    ]

add_dependencies-occurrences :
    (group f k : ℕ) (files : List ℕ) (deps : HashMap ℕ (List ℕ))
    → occurrences k (or_empty (HashMap.get f (add_dependencies group files deps)))
      ≡ occurrences k (or_empty (HashMap.get f deps))
        + (if nat_beq group k then occurrences f files else 0)
unfolding add_dependencies
add_dependencies-occurrences group f k [] deps = ground arith
add_dependencies-occurrences group f k (file ∷ files) deps = ground (
  arith,
  push-occurrences group f k file deps,
  add_dependencies-occurrences group f k files
      (HashMap.insert file (or_empty (HashMap.get file deps) ++ group ∷ []) deps),
)

module _ {F : Type 0} where
  -- What one group adds.
  pub record Gains (key : ℕ) (group : ExecutionGroup F) (p q : Progress) : Type 0 where
    pub once :
        (f : ℕ)
        → occurrences f (outputs group) + one_if_in f p.known_files ≡ one_if_in f q.known_files
    pub counts :
        (k : ℕ)
        → HashMap.get k q.num_dependencies ≡ (
            if nat_beq key k
            then some (length (dependencies group))
            else HashMap.get k p.num_dependencies)
    pub lists :
        (f k : ℕ)
        → occurrences k (or_empty (HashMap.get f q.dependencies))
          ≡ occurrences k (or_empty (HashMap.get f p.dependencies))
            + (if nat_beq key k then occurrences f (dependencies group) else 0)
    pub queue :
        (k : ℕ)
        → occurrences k q.ready_groups
          ≡ occurrences k p.ready_groups
            + (if nat_beq key k && nat_beq (length (dependencies group)) 0 then 1 else 0)
    pub same_files : q.ready_files ≡ p.ready_files

  pub add_group-Gains :
      (key : ℕ) (group : ExecutionGroup F) (p q : Progress)
      → add_group (key, group) p ≡ ok q
      → Gains key group p q
  unfolding add_group
  add_group-Gains key group p q h = elim (Bool-cases (is_empty group.executions)) [
    | inl empty ↦ absurd (ground (arith, empty))
    | inr full ↦
        let (_, _, h1) = bind-eq-ok (check_fifos group.fifo []) _ (rw (full, add_group) at h) in
        elim (Bool-cases (HashSet.contains group.uuid p.known_execs)) [
          | inl twice ↦ absurd (ground (arith, twice))
          | inr new ↦
              let (files, e, h2) =
                bind-eq-ok (add_outputs (outputs group) p.known_files) _ (rw new at h1) in
              subst (Gains key group p) (ok-injective h2) (record {
                once = λ f. add_outputs-once (outputs group) p.known_files files f e;
                counts =
                    λ k. HashMap.get-insert key k (length (dependencies group)) p.num_dependencies;
                lists =
                    λ f k. add_dependencies-occurrences key f k (dependencies group) p.dependencies;
                queue = λ k. ground (arith, occurrences-append k p.ready_groups (key ∷ []));
                same_files = refl;
              })
        ]
  ]

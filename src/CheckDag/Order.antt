-- ===== src/CheckDag/Order.antt =====
-- The order in which task-maker-exec/src/check_dag.rs visits the files and groups of a DAG.
use task_maker_rust.Base.{
  ℕ, zero, suc, ◌+◌, ◌≤◌, ◌≡◌, refl, ◌∙◌, ap, inl, inr, subst, true, false, some, List, [], ◌∷◌,
  ◌++◌, ok, bind-eq-ok, ok-injective, length, arith,
}
use mathlib.Core.Option.{some-injective}
use task_maker_rust.Base.Tests.{if_ind, nat_eq, nat_beq, nat_beq_iff, Option-cases, Bool-cases}
use task_maker_rust.Base.Counts.{occurrences, seen, occurrences-append}
use task_maker_rust.Base.HashMap
use task_maker_rust.Base.HashMap.{HashMap}
use task_maker_rust.Base.HashSet
use task_maker_rust.Dag.Group.{ExecutionGroup, dependencies, outputs}
use task_maker_rust.Dag.Data.{ExecutionDagData}
use task_maker_rust.CheckDag.Errors.{Progress}
use task_maker_rust.CheckDag.Visiting.{count_down, count_all_down}

-- The files that can be had: the provided ones, and the outputs of a group whose dependencies can.
pub data Available {F : Type 0} (dag : ExecutionDagData F) : ℕ → Type 0 where
  provided : {f : ℕ} → HashSet.contains f (HashMap.keys dag.provided_files) ≡ true → Available dag f
  produced :
      {f : ℕ} (key : ℕ) (group : ExecutionGroup F)
      → HashMap.get key dag.execution_groups ≡ some group
      → ((d : ℕ) → HashSet.contains d (dependencies group) ≡ true → Available dag d)
      → HashSet.contains f (outputs group) ≡ true
      → Available dag f

abbrev times : ℕ → ℕ → ℕ
times zero m = 0
times (suc n) m = m + times n m

module _ {F : Type 0} where
  -- How often a file is an output of the groups, each as often as it is done.
  abbrev pub made : HashMap ℕ (ExecutionGroup F) → List ℕ → ℕ → ℕ
  made [] done f = 0
  made ((key, group) ∷ groups) done f =
      times (occurrences key done) (occurrences f (outputs group)) + made groups done f

  abbrev pub made_by_all : HashMap ℕ (ExecutionGroup F) → ℕ → ℕ
  made_by_all [] f = 0
  made_by_all ((key, group) ∷ groups) f = occurrences f (outputs group) + made_by_all groups f

times_le : (n m : ℕ) → n ≤ 1 → times n m ≤ m
times_le zero m h = omega arith
times_le (suc zero) m h = omega arith
times_le (suc (suc n)) m h = absurd (omega arith)

times-suc : (a b m : ℕ) → a ≡ suc b → times a m ≡ m + times b m
times-suc a b m e = ap (λ n. times n m) e

-- One more group is done: nothing is made less often.
made-times :
    (j k : ℕ) (done : List ℕ) (m : ℕ)
    → (nat_beq j k ≡ true
        → times (occurrences j (done ++ k ∷ [])) m ≡ m + times (occurrences j done) m)
      × (nat_beq j k ≡ false
          → times (occurrences j (done ++ k ∷ [])) m ≡ times (occurrences j done) m)
made-times j k done m = (
  λ same.
      times-suc _ (occurrences j done) m
        (ground (arith, occurrences-append j done (k ∷ []), nat_beq_iff j k, nat_beq_iff k j)),
  λ other.
      ap (λ n. times n m)
        (ground (arith, occurrences-append j done (k ∷ []), nat_beq_iff j k, nat_beq_iff k j)),
)

module _ {F : Type 0} where
  pub made_le :
      (groups : HashMap ℕ (ExecutionGroup F)) (done : List ℕ) (f : ℕ)
      → ((k : ℕ) → occurrences k done ≤ 1)
      → made groups done f ≤ made_by_all groups f
  made_le [] done f h = omega arith
  made_le ((key, group) ∷ groups) done f h = omega (
    arith,
    times_le (occurrences key done) (occurrences f (outputs group)) (h key),
    made_le groups done f h,
  )

  made_mono :
      (groups : HashMap ℕ (ExecutionGroup F)) (k : ℕ) (done : List ℕ) (f : ℕ)
      → made groups done f ≤ made groups (done ++ k ∷ []) f
  made_mono [] k done f = omega arith
  made_mono ((j, group) ∷ groups) k done f =
      let step = made-times j k done (occurrences f (outputs group)) in
      elim (Bool-cases (nat_beq j k)) [
        | inl same ↦ omega (arith, step.0 same, made_mono groups k done f)
        | inr other ↦ omega (arith, step.1 other, made_mono groups k done f)
      ]

  pub made-append :
      (groups : HashMap ℕ (ExecutionGroup F)) (k : ℕ) (group : ExecutionGroup F) (done : List ℕ)
      (f : ℕ)
      → HashMap.get k groups ≡ some group
      → made groups done f + occurrences f (outputs group) ≤ made groups (done ++ k ∷ []) f
  unfolding HashMap.get
  made-append [] k group done f h = cc
  made-append ((j, g) ∷ groups) k group done f h =
      let step = made-times j k done (occurrences f (outputs g)) in
      elim (Bool-cases (nat_beq j k)) [
        | inl same ↦
            let here : some g ≡ some group = rw same at h in
            let equal =
              ap (λ (x : ExecutionGroup F). occurrences f (outputs x)) (some-injective _ _ here) in
            omega (arith, step.0 same, made_mono groups k done f, equal)
        | inr other ↦ omega (arith, step.1 other, made-append groups k group done f (rw other at h))
      ]

  -- A group waits for its dependencies but the visited ones, and for those about to be counted.
  abbrev pub Balanced : HashMap ℕ (ExecutionGroup F) → List ℕ → List ℕ → HashMap ℕ ℕ → Type 0
  Balanced groups visited later counts =
      (k : ℕ) (group : ExecutionGroup F)
      → HashMap.get k groups ≡ some group
      → (n : ℕ) × (HashMap.get k counts ≡ some n)
        × (n + seen visited (dependencies group)
            ≡ length (dependencies group) + occurrences k later)

-- A group is done or ready at most once, and then it waits for nothing.
abbrev pub Fresh : List ℕ → List ℕ → HashMap ℕ ℕ → Type 0
Fresh done ready counts =
    (k : ℕ)
    → (occurrences k done + occurrences k ready ≤ 1)
      × (1 ≤ occurrences k done + occurrences k ready → HashMap.get k counts ≡ some 0)

Fresh-insert :
    (done ready : List ℕ) (counts : HashMap ℕ ℕ) (g n : ℕ)
    → HashMap.get g counts ≡ some (suc n)
    → Fresh done ready counts
    → (n ≡ 0 → Fresh done (ready ++ g ∷ []) (HashMap.insert g n counts))
      × Fresh done ready (HashMap.insert g n counts)
Fresh-insert done ready counts g n at fresh = (
  λ zero_left k. (
    ground (arith, fresh k, fresh g, occurrences-append k ready (g ∷ []), nat_beq_iff g k),
    λ some_time. ground (
      arith,
      fresh k,
      fresh g,
      occurrences-append k ready (g ∷ []),
      nat_beq_iff g k,
      HashMap.get-insert g k n counts,
    ),
  ),
  λ k. (
    (fresh k).0,
    λ some_time. ground (arith, fresh k, fresh g, nat_beq_iff g k, HashMap.get-insert g k n counts),
  ),
)

-- What a step of the visit of the files leaves as it is.
pub record Queued (p q : Progress) : Type 0 where
  pub same_files : q.ready_files ≡ p.ready_files
  pub same_dependencies : q.dependencies ≡ p.dependencies

pub Queued-ok : (p : Progress) → Queued p p
Queued-ok p = record { same_files = refl; same_dependencies = refl }

pub Queued-trans : (p q r : Progress) → Queued p q → Queued q r → Queued p r
Queued-trans p q r h k = record {
  same_files = k.same_files ∙ h.same_files;
  same_dependencies = k.same_dependencies ∙ h.same_dependencies;
}

module _ {F : Type 0} (groups : HashMap ℕ (ExecutionGroup F)) where
  Balanced-insert :
      (visited later : List ℕ) (counts : HashMap ℕ ℕ) (g n : ℕ)
      → HashMap.get g counts ≡ some (suc n)
      → Balanced groups visited (g ∷ later) counts
      → Balanced groups visited later (HashMap.insert g n counts)
  Balanced-insert visited later counts g n at balanced k group here =
      let (m, there, sum) = balanced k group here in
      elim (Bool-cases (nat_beq g k)) [
        | inl same ↦
            let equal : suc n ≡ m = ground (arith, nat_beq_iff g k) in
            (
              n,
              ground (arith, HashMap.get-insert g k n counts, nat_beq_iff g k),
              ground (arith, nat_beq_iff g k),
            )
        | inr other ↦ (m, ground (arith, HashMap.get-insert g k n counts), ground (arith, other))
      ]

  -- The state after a part of the visit of a file.
  pub record Counted (visited later done : List ℕ) (p q : Progress) : Type 0 where
    pub balanced : Balanced groups visited later q.num_dependencies
    pub fresh : Fresh done q.ready_groups q.num_dependencies
    pub queued : Queued p q

  count_down-Counted :
      (visited later done : List ℕ) (g : ℕ) (p q : Progress)
      → count_down g p ≡ ok q
      → Balanced groups visited (g ∷ later) p.num_dependencies
      → Fresh done p.ready_groups p.num_dependencies
      → Counted visited later done p q
  unfolding count_down
  count_down-Counted visited later done g p q h balanced fresh =
      elim (Option-cases (HashMap.get g p.num_dependencies)) [
        | inl gone ↦ absurd (ground (arith, gone))
        | inr (zero, at) ↦ absurd (ground (arith, at))
        | inr (suc n, at) ↦
            let next = Fresh-insert done p.ready_groups p.num_dependencies g n at fresh in
            subst (Counted visited later done p) (ok-injective (rw (at, count_down) at h)) (record {
              balanced = Balanced-insert visited later p.num_dependencies g n at balanced;
              fresh =
                  if_ind (λ r. Fresh done r (HashMap.insert g n p.num_dependencies)) (nat_beq n 0)
                    (λ last. next.0 ((nat_beq_iff n 0).0 last)) (λ _. next.1);
              queued = record { same_files = refl; same_dependencies = refl };
            })
      ]

  pub count_all_down-Counted :
      (visited done later : List ℕ) (p q : Progress)
      → count_all_down later p ≡ ok q
      → Balanced groups visited later p.num_dependencies
      → Fresh done p.ready_groups p.num_dependencies
      → Counted visited [] done p q
  unfolding count_all_down
  count_all_down-Counted visited done [] p q h balanced fresh =
      subst (Counted visited [] done p) (ok-injective h)
        (record { balanced = balanced; fresh = fresh; queued = Queued-ok p })
  count_all_down-Counted visited done (g ∷ later) p q h balanced fresh =
      let (r, e, k) = bind-eq-ok (count_down g p) _ h in
      let first = count_down-Counted visited later done g p r e balanced fresh in
      let rest = count_all_down-Counted visited done later r q k first.balanced first.fresh in
      record {
        balanced = rest.balanced;
        fresh = rest.fresh;
        queued = Queued-trans p r q first.queued rest.queued;
      }

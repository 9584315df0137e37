-- ===== src/CheckDag/Visits.antt =====
-- What the visit of task-maker-exec/src/check_dag.rs has reached.
use task_maker_rust.Base.{
  ℕ, ◌+◌, ◌≤◌, ◌≡◌, refl, sym, inl, inr, subst, true, some, List, [], ◌∷◌, ◌++◌, ok, ◌>>=◌,
  bind-eq-ok, ok-injective, arith,
}
use task_maker_rust.Base.Tests.{nat_eq, Option-cases, Bool-cases}
use task_maker_rust.Base.Counts.{occurrences, occurrences-append, seen-append_one, contains-append}
use task_maker_rust.Base.HashMap
use task_maker_rust.Base.HashMap.{HashMap}
use task_maker_rust.Base.HashSet
use task_maker_rust.Dag.Group.{ExecutionGroup, dependencies}
use task_maker_rust.Dag.Data.{ExecutionDagData}
use task_maker_rust.CheckDag.Errors.{Progress}
use task_maker_rust.CheckDag.Adding.{or_empty}
use task_maker_rust.CheckDag.Visiting.{count_all_down, visit_files}
use task_maker_rust.CheckDag.Order.{
  Available, made, made_by_all, Balanced, Fresh, Queued, Queued-ok, Queued-trans,
  count_all_down-Counted,
}

module _ {F : Type 0} (dag : ExecutionDagData F) where
  -- Under each file stand the groups that depend on it, as often as they do.
  abbrev pub IsListed : HashMap ℕ (List ℕ) → Type 0
  IsListed deps =
      (f k : ℕ) (group : ExecutionGroup F)
      → HashMap.get k dag.execution_groups ≡ some group
      → occurrences k (or_empty (HashMap.get f deps)) ≡ occurrences f (dependencies group)

  -- No file is provided or made twice.
  abbrev pub IsMadeOnce : Type 0
  IsMadeOnce =
      (f : ℕ)
      → occurrences f (HashMap.keys dag.provided_files) + made_by_all dag.execution_groups f ≤ 1

  -- The state of the visit: the files that are visited and those that are next, the groups that are
  -- done and those that are next.
  pub record Reached (visited next done ready : List ℕ) (p : Progress) : Type 0 where
    pub visited_there : (f : ℕ) → HashSet.contains f visited ≡ true → Available dag f
    pub next_there : (f : ℕ) → HashSet.contains f next ≡ true → Available dag f
    pub balanced : Balanced dag.execution_groups visited [] p.num_dependencies
    pub fresh : Fresh done ready p.num_dependencies
    pub once :
        (f : ℕ)
        → occurrences f visited + occurrences f next
          ≤ occurrences f (HashMap.keys dag.provided_files) + made dag.execution_groups done f
    pub listed : IsListed p.dependencies

  Balanced-visit :
      (visited : List ℕ) (file : ℕ) (p : Progress)
      → IsListed p.dependencies
      → Balanced dag.execution_groups visited [] p.num_dependencies
      → Balanced dag.execution_groups
          (visited ++ file ∷ [])
          (or_empty (HashMap.get file p.dependencies))
          p.num_dependencies
  Balanced-visit visited file p listed balanced k group here =
      let (n, there, sum) = balanced k group here in
      (
        n,
        there,
        omega (
          arith,
          sum,
          listed file k group here,
          seen-append_one visited (dependencies group) file,
        ),
      )

  -- After the file at the front is visited.
  visit_one :
      (visited files done : List ℕ) (file : ℕ) (p q : Progress)
      → count_all_down (or_empty (HashMap.get file p.dependencies)) p ≡ ok q
      → Reached visited (file ∷ files) done p.ready_groups p
      → Reached (visited ++ file ∷ []) files done q.ready_groups q × Queued p q
  unfolding HashSet.contains
  visit_one visited files done file p q h r =
      let step =
        count_all_down-Counted dag.execution_groups (visited ++ file ∷ []) done
          (or_empty (HashMap.get file p.dependencies)) p q h
          (Balanced-visit visited file p r.listed r.balanced) r.fresh in
      (
        record {
          visited_there = λ f e. elim (Bool-cases (HashSet.contains f visited)) [
            | inl old ↦ r.visited_there f old
            | inr new ↦ r.next_there f (ground (arith, contains-append f visited (file ∷ []), new))
          ];
          next_there = λ f e. r.next_there f (ground (arith, e));
          balanced = step.balanced;
          fresh = step.fresh;
          once = λ f. ground (arith, r.once f, occurrences-append f visited (file ∷ []));
          listed = subst IsListed (sym (step.queued).same_dependencies) r.listed;
        },
        step.queued,
      )

  pub visit_files-Reached :
      (files visited done : List ℕ) (p q : Progress)
      → visit_files files p ≡ ok q
      → Reached visited files done p.ready_groups p
      → (visited' : List ℕ) × Reached visited' [] done q.ready_groups q × Queued p q
  unfolding visit_files count_all_down
  visit_files-Reached [] visited done p q h r =
      subst (λ t. (visited' : List ℕ) × Reached visited' [] done t.ready_groups t × Queued p t)
        (ok-injective h) (visited, r, Queued-ok p)
  visit_files-Reached (file ∷ files) visited done p q h r =
      elim (Option-cases (HashMap.get file p.dependencies)) [
        | inl gone ↦
            let (next, same) =
              visit_one visited files done file p p (rw (gone, count_all_down) refl) r in
            visit_files-Reached files (visited ++ file ∷ []) done p q (rw (gone, visit_files) at h)
              next
        | inr (gs, at) ↦
            let step : (count_all_down gs p >>= visit_files files) ≡ ok q =
              rw (at, visit_files) at h in
            let (t, e, k) = bind-eq-ok (count_all_down gs p) _ step in
            let (next, same) = visit_one visited files done file p t (rw at e) r in
            let (visited', reached, queued) =
              visit_files-Reached files (visited ++ file ∷ []) done t q k next in
            (visited', reached, Queued-trans p t q same queued)
      ]

-- ===== src/CheckDag/Accepted.antt =====
-- The DAGs that task-maker-exec/src/check_dag.rs accepts.
use task_maker_rust.Base.{
  ℕ, zero, suc, ◌+◌, ◌≡◌, refl, ◌∙◌, ap, inl, inr, subst, String, true, false, some, [], ◌∷◌, ◌++◌,
  if◌then◌else◌, ok, bind-eq-ok, ok-injective, length, All, arith,
}
use mathlib.Core.Option.{some-injective}
use task_maker_rust.Base.Tests.{nat_eq, nat_beq, nat_beq_iff, Option-cases, Bool-cases}
use task_maker_rust.Base.Counts.{occurrences, seen_empty}
use task_maker_rust.Base.HashMap
use task_maker_rust.Base.HashMap.{HashMap}
use task_maker_rust.Base.HashSet
use task_maker_rust.Base.HashSet.{HashSet}
use task_maker_rust.Dag.Group.{ExecutionGroup, dependencies}
use task_maker_rust.Dag.Data.{ExecutionDagData, ExecutionDagWatchSet}
use task_maker_rust.CheckDag.Errors.{or_panic, Progress}
use task_maker_rust.CheckDag.Adding.{or_empty, add_group, add_groups}
use task_maker_rust.CheckDag.Visiting.{
  find_missing, find_unreached, visit, nothing_known, collect, check_dag,
}
use task_maker_rust.CheckDag.Order.{Available, provided, made_by_all}
use task_maker_rust.CheckDag.Collected.{one_if_in, add_provided-Provides, add_group-Gains}
use task_maker_rust.CheckDag.Visits.{IsMadeOnce, Reached}
use task_maker_rust.CheckDag.Rounds.{dependencies_there, visit-Reached}

module _ {F : Type 0} where
  -- No two entries of the map have the same key.
  abbrev pub AreApart : HashMap ℕ (ExecutionGroup F) → Type 0
  AreApart [] = Unit {0}
  AreApart ((key, group) ∷ groups) = (HashMap.contains_key key groups ≡ false) × AreApart groups

  -- What the loop over the groups adds, for a key that has a group and for one that has none.
  record Collects (groups : HashMap ℕ (ExecutionGroup F)) (p q : Progress) : Type 0 where
    once : (f : ℕ) → made_by_all groups f + one_if_in f p.known_files ≡ one_if_in f q.known_files
    absent :
        (k : ℕ)
        → HashMap.contains_key k groups ≡ false
        → (HashMap.get k q.num_dependencies ≡ HashMap.get k p.num_dependencies)
          × ((f : ℕ)
              → occurrences k (or_empty (HashMap.get f q.dependencies))
                ≡ occurrences k (or_empty (HashMap.get f p.dependencies)))
          × (occurrences k q.ready_groups ≡ occurrences k p.ready_groups)
    present :
        (k : ℕ) (group : ExecutionGroup F)
        → HashMap.get k groups ≡ some group
        → (HashMap.get k q.num_dependencies ≡ some (length (dependencies group)))
          × ((f : ℕ)
              → occurrences k (or_empty (HashMap.get f q.dependencies))
                ≡ occurrences k (or_empty (HashMap.get f p.dependencies))
                  + occurrences f (dependencies group))
          × (occurrences k q.ready_groups
              ≡ occurrences k p.ready_groups
                + (if nat_beq (length (dependencies group)) 0 then 1 else 0))
    same_files : q.ready_files ≡ p.ready_files

  add_groups-Collects :
      (groups : HashMap ℕ (ExecutionGroup F)) (p q : Progress)
      → AreApart groups
      → add_groups groups p ≡ ok q
      → Collects groups p q
  unfolding add_groups HashMap.get
  add_groups-Collects [] p q apart h = subst (Collects [] p) (ok-injective h) (record {
    once = λ f. ground arith;
    absent = λ k e. (refl, (λ f. refl), refl);
    present = λ k group e. cc;
    same_files = refl;
  })
  add_groups-Collects ((key, g0) ∷ groups) p q apart h =
      let (r, e, rest_ok) = bind-eq-ok (add_group (key, g0) p) _ h in
      let first = add_group-Gains key g0 p r e in
      let rest = add_groups-Collects groups r q apart.1 rest_ok in
      record {
        once = λ f. omega (arith, first.once f, rest.once f);
        absent = λ k gone.
            let other : nat_beq key k ≡ false = ground (arith, gone) in
            let later = rest.absent k (ground (arith, gone)) in
            (
              ground (arith, later.0, first.counts k, other),
              (λ f. ground (arith, later.1 f, first.lists f k, other)),
              ground (arith, later.2, first.queue k, other),
            );
        present = λ k group here. elim (Bool-cases (nat_beq key k)) [
          | inl same ↦
              let here0 : some g0 ≡ some group = rw same at here in
              let later = rest.absent k (
                subst (λ j. HashMap.contains_key j groups ≡ false) ((nat_beq_iff key k).0 same)
                  apart.0) in
              subst
                (λ g.
                  (HashMap.get k q.num_dependencies ≡ some (length (dependencies g)))
                  × ((f : ℕ)
                      → occurrences k (or_empty (HashMap.get f q.dependencies))
                        ≡ occurrences k (or_empty (HashMap.get f p.dependencies))
                          + occurrences f (dependencies g))
                  × (occurrences k q.ready_groups
                      ≡ occurrences k p.ready_groups
                        + (if nat_beq (length (dependencies g)) 0 then 1 else 0)))
                (some-injective _ _ here0)
                (
                  ground (arith, later.0, first.counts k, same),
                  (λ f. ground (arith, later.1 f, first.lists f k, same)),
                  ground (arith, later.2, first.queue k, same),
                )
          | inr other ↦
              let later = rest.present k group (rw other at here) in
              (
                later.0,
                (λ f. ground (arith, later.1 f, first.lists f k, other)),
                ground (arith, later.2, first.queue k, other),
              )
        ];
        same_files = rest.same_files ∙ first.same_files;
      }

module _ {F : Type 0} (dag : ExecutionDagData F) where
  collect-Reached :
      (p : Progress)
      → AreApart dag.execution_groups
      → collect dag ≡ ok p
      → IsMadeOnce dag × Reached dag [] p.ready_files [] p.ready_groups p
  unfolding collect HashMap.get HashSet.contains
  collect-Reached p apart h =
      let (r, e, k) = bind-eq-ok (add_groups dag.execution_groups nothing_known) _ h in
      let groups = add_groups-Collects dag.execution_groups nothing_known r apart e in
      let files = add_provided-Provides (HashMap.keys dag.provided_files) r p k in
      let queue : p.ready_files ≡ HashMap.keys dag.provided_files =
        files.queue ∙ ap (λ l. l ++ HashMap.keys dag.provided_files) groups.same_files in
      (
        λ f. ground (arith, groups.once f, files.once f),
        record {
          visited_there = λ f e. cc;
          next_there = λ f e. provided (subst (λ l. HashSet.contains f l ≡ true) queue e);
          balanced = λ k group here. (
            length (dependencies group),
            ap (HashMap.get k) files.same_counts ∙ (groups.present k group here).0,
            omega (arith, seen_empty (dependencies group)),
          );
          fresh = λ k. elim (Option-cases (HashMap.get k dag.execution_groups)) [
            | inl gone ↦
                let none_there = (groups.absent k (rw gone refl)).2 in
                (
                  omega (arith, none_there, ap (occurrences k) files.same_groups),
                  λ some_time.
                      absurd (omega (arith, none_there, ap (occurrences k) files.same_groups)),
                )
            | inr (group, here) ↦
                let there = groups.present k group here in
                (
                  ground (arith, there.2, ap (occurrences k) files.same_groups),
                  λ some_time.
                      ap (HashMap.get k) files.same_counts
                      ∙ there.0
                      ∙ ap some (ground (arith, there.2, ap (occurrences k) files.same_groups)),
                )
          ];
          once = λ f. omega (arith, ap (occurrences f) queue);
          listed = λ f k group here.
              ap (λ m. occurrences k (or_empty (HashMap.get f m))) files.same_lists
              ∙ (groups.present k group here).1 f
              ∙ omega arith;
        },
      )

  find_unreached-zero :
      (dependency_of : String → String) (known : HashSet ℕ) (counts : HashMap ℕ ℕ)
      → find_unreached dependency_of dag.execution_groups known counts ≡ ok tt
      → All (λ p. p.1 ≡ 0) counts
  unfolding find_unreached
  find_unreached-zero d known [] h = tt
  find_unreached-zero d known ((g, zero) ∷ counts) h = (refl, find_unreached-zero d known counts h)
  find_unreached-zero d known ((g, suc n) ∷ counts) h =
      let (group, _, h1) = bind-eq-ok (or_panic (HashMap.get g dag.execution_groups)) _ h in
      let (_, _, h2) =
        bind-eq-ok (find_missing (d group.description) (dependencies group) known) _ h1 in
      absurd (ground arith)

  -- In a DAG that `check_dag` accepts, whose map of groups has no key twice, each dependency of
  -- each group can be had: it is provided, or it is an output of a group whose dependencies can be
  -- had. So nothing is missing and there is no cycle.
  pub check_dag-Available :
      (dependency_of : String → String) (callbacks : ExecutionDagWatchSet) (key : ℕ)
      (group : ExecutionGroup F) (f : ℕ)
      → AreApart dag.execution_groups
      → check_dag dependency_of dag callbacks ≡ ok tt
      → HashMap.get key dag.execution_groups ≡ some group
      → HashSet.contains f (dependencies group) ≡ true
      → Available dag f
  unfolding check_dag
  check_dag-Available d callbacks key group f apart h here needed =
      let (p, e1, h1) = bind-eq-ok (collect dag) _ h in
      let (q, e2, h2) = bind-eq-ok (visit _ dag.execution_groups p) _ h1 in
      let (_, e3, h3) =
        bind-eq-ok (find_unreached d dag.execution_groups q.known_files q.num_dependencies) _ h2 in
      let (once, start) = collect-Reached p apart e1 in
      let (visited, done, r) = visit-Reached dag _ [] [] p q once e2 start in
      let (n, there, sum) = r.balanced key group here in
      let zero_left =
        HashMap.All-get (λ x. x.1 ≡ 0) key n q.num_dependencies
          (find_unreached-zero d q.known_files q.num_dependencies e3) there in
      dependencies_there dag visited q.ready_files done q.ready_groups q key group once r here
        (there ∙ ap some zero_left) f needed

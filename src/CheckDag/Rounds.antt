-- ===== src/CheckDag/Rounds.antt =====
-- The rounds of the visit of task-maker-exec/src/check_dag.rs.
use task_maker_rust.Base.{
  ℕ, zero, suc, ◌≤◌, ◌≡◌, refl, sym, ◌∙◌, ap, inl, inr, subst, true, Option, none, some, List, [],
  ◌∷◌, ◌++◌, ◌&&◌, ok, bind-eq-ok, ok-injective, is_empty, arith,
}
use mathlib.Core.Option.{some-injective}
use task_maker_rust.Base.Tests.{if_ind, nat_eq, nat_beq_iff, Bool-cases}
use task_maker_rust.Base.Counts.{occurrences, occurrences-append, contains-append, seen_all}
use task_maker_rust.Base.HashMap
use task_maker_rust.Base.HashMap.{HashMap}
use task_maker_rust.Base.HashSet
use task_maker_rust.Dag.Group.{ExecutionGroup, dependencies, outputs}
use task_maker_rust.Dag.Data.{ExecutionDagData}
use task_maker_rust.CheckDag.Errors.{or_panic, Progress}
use task_maker_rust.CheckDag.Visiting.{visit_files, visit_groups, visit_round, visit}
use task_maker_rust.CheckDag.Order.{Available, produced, made_le, made-append}
use task_maker_rust.CheckDag.Visits.{IsMadeOnce, Reached, visit_files-Reached}

module _ {F : Type 0} (dag : ExecutionDagData F) where
  or_panic-eq-ok : {A : Type 0} (o : Option A) (a : A) → or_panic o ≡ ok a → o ≡ some a
  or_panic-eq-ok none a h = absurd (ground arith)
  or_panic-eq-ok (some b) a h = ap some (ok-injective h)

  -- Nothing is visited twice.
  visited_once :
      (visited next done ready : List ℕ) (p : Progress)
      → IsMadeOnce dag
      → Reached dag visited next done ready p
      → (a : ℕ) → occurrences a visited ≤ 1
  visited_once visited next done ready p once r a = omega (
    arith,
    once a,
    r.once a,
    made_le dag.execution_groups done a (λ k. omega (arith, (r.fresh k).0)),
  )

  -- The dependencies of a group that waits for nothing are there.
  pub dependencies_there :
      (visited next done ready : List ℕ) (p : Progress) (k : ℕ) (group : ExecutionGroup F)
      → IsMadeOnce dag
      → Reached dag visited next done ready p
      → HashMap.get k dag.execution_groups ≡ some group
      → HashMap.get k p.num_dependencies ≡ some 0
      → (d : ℕ) → HashSet.contains d (dependencies group) ≡ true
      → Available dag d
  dependencies_there visited next done ready p k group once r here zero_left d e =
      let (n, there, sum) = r.balanced k group here in
      let none_left : n ≡ 0 = some-injective _ _ (sym there ∙ zero_left) in
      r.visited_there d (
        seen_all visited (dependencies group) d (visited_once visited next done ready p once r)
          (omega (arith, sum, none_left)) e)

  visit_groups-Reached :
      (ready visited done : List ℕ) (p q : Progress)
      → IsMadeOnce dag
      → visit_groups dag.execution_groups ready p ≡ ok q
      → Reached dag visited p.ready_files done ready p
      → (done' : List ℕ) × Reached dag visited q.ready_files done' [] q
        × (q.ready_groups ≡ p.ready_groups)
  unfolding visit_groups
  visit_groups-Reached [] visited done p q once h r =
      subst
        (λ t.
          (done' : List ℕ) × Reached dag visited t.ready_files done' [] t
          × (t.ready_groups ≡ p.ready_groups))
        (ok-injective h) (done, r, refl)
  visit_groups-Reached (g ∷ ready) visited done p q once h r =
      let (group, e, k) = bind-eq-ok (or_panic (HashMap.get g dag.execution_groups)) _ h in
      let here = or_panic-eq-ok (HashMap.get g dag.execution_groups) group e in
      let zero_left = (r.fresh g).1 (ground (arith, nat_beq_iff g g)) in
      let there =
        dependencies_there visited p.ready_files done (g ∷ ready) p g group once r here zero_left in
      visit_groups-Reached ready visited (done ++ g ∷ [])
        (record p { ready_files = p.ready_files ++ outputs group }) q once k
        (record {
          visited_there = r.visited_there;
          next_there = λ f e. elim (Bool-cases (HashSet.contains f p.ready_files)) [
            | inl old ↦ r.next_there f old
            | inr new ↦
                produced g group here there
                  (ground (arith, contains-append f p.ready_files (outputs group)))
          ];
          balanced = r.balanced;
          fresh = λ j. (
            ground (arith, r.fresh j, occurrences-append j done (g ∷ [])),
            λ some_time. ground (arith, r.fresh j, occurrences-append j done (g ∷ [])),
          );
          once = λ f. omega (
            arith,
            r.once f,
            occurrences-append f p.ready_files (outputs group),
            made-append dag.execution_groups g group done f here,
          );
          listed = r.listed;
        })

  visit_round-Reached :
      (visited done : List ℕ) (p q : Progress)
      → IsMadeOnce dag
      → visit_round dag.execution_groups p ≡ ok q
      → Reached dag visited p.ready_files done p.ready_groups p
      → (visited' : List ℕ) × (done' : List ℕ) × Reached dag visited' q.ready_files done'
          q.ready_groups q
  unfolding visit_round
  visit_round-Reached visited done p q once h r =
      let (t, e, k) = bind-eq-ok (visit_files p.ready_files (record p { ready_files = [] })) _ h in
      let (visited', reached, queued) =
        visit_files-Reached dag p.ready_files visited done (record p { ready_files = [] }) t e
          (record {
            visited_there = r.visited_there;
            next_there = r.next_there;
            balanced = r.balanced;
            fresh = r.fresh;
            once = r.once;
            listed = r.listed;
          }) in
      let next =
        subst (λ n. Reached dag visited' n done t.ready_groups t) (sym queued.same_files) reached in
      let (done', last, none_ready) =
        visit_groups-Reached t.ready_groups visited' done (record t { ready_groups = [] }) q once k
          (record {
            visited_there = next.visited_there;
            next_there = next.next_there;
            balanced = next.balanced;
            fresh = next.fresh;
            once = next.once;
            listed = next.listed;
          }) in
      (
        visited',
        done',
        subst (λ n. Reached dag visited' q.ready_files done' n q) (sym none_ready) last,
      )

  pub visit-Reached :
      (fuel : ℕ) (visited done : List ℕ) (p q : Progress)
      → IsMadeOnce dag
      → visit fuel dag.execution_groups p ≡ ok q
      → Reached dag visited p.ready_files done p.ready_groups p
      → (visited' : List ℕ) × (done' : List ℕ) × Reached dag visited' q.ready_files done'
          q.ready_groups q
  unfolding visit
  visit-Reached zero visited done p q once h r = cc
  visit-Reached (suc fuel) visited done p q once h r =
      if_ind
        (λ x.
          x ≡ ok q
          → (visited' : List ℕ) × (done' : List ℕ) × Reached dag visited' q.ready_files done'
              q.ready_groups q)
        (is_empty p.ready_groups && is_empty p.ready_files)
        (λ _ e.
          subst
            (λ t.
              (visited' : List ℕ) × (done' : List ℕ) × Reached dag visited' t.ready_files done'
                t.ready_groups t)
            (ok-injective e) (visited, done, r))
        (λ _ e.
          let (t, e1, k) = bind-eq-ok (visit_round dag.execution_groups p) _ e in
          let (visited', done', next) = visit_round-Reached visited done p t once e1 r in
          visit-Reached fuel visited' done' t q once k next)
        h

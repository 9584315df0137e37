-- ===== src/Scheduler/Soundness/Evaluating.antt =====
-- `handle_evaluate_dag`: the data of a new client.
use task_maker_rust.Base.{
  ℕ, ◌≡◌, ◌≢◌, refl, true, Option, none, some, List, [], ◌∷◌, is_empty, All, All-imp, arith, ◌⊎◌,
  inl, inr, subst,
}
use task_maker_rust.Base.Tests.{nat_eq, if_ind}
use task_maker_rust.Base.HashMap
use task_maker_rust.Base.HashMap.{HashMap}
use task_maker_rust.Base.HashSet
use task_maker_rust.Base.HashSet.{HashSet}
use task_maker_rust.Base.Int.{ℤ}
use task_maker_rust.Dag.Group.{ExecutionGroup, dependencies}
use task_maker_rust.Dag.Data.{ExecutionDagData}
use task_maker_rust.Scheduler.Heap.{ReadyExec}
use task_maker_rust.Scheduler.State.{SchedulerClientData}
use task_maker_rust.Scheduler.Clients.{or_default, add_inputs, add_missing, add_group, add_groups}
use task_maker_rust.Scheduler.Soundness.Invariant.{
  HasGroup, Executable, Waits, IsClientSound, CanRun,
}

-- What was missing stays missing, and so does every input.
add_missing-old :
    (inputs : List ℕ) (missing : HashSet ℕ) (f : ℕ)
    → HashSet.contains f missing ≡ true
    → HashSet.contains f (add_missing inputs missing) ≡ true
unfolding add_missing
add_missing-old [] missing f h = h
add_missing-old (i ∷ inputs) missing f h =
    add_missing-old inputs (HashSet.insert i missing) f
      (ground (arith, HashSet.contains-insert i f missing))

add_missing-new :
    (inputs : List ℕ) (missing : HashSet ℕ)
    → All (λ f. HashSet.contains f (add_missing inputs missing) ≡ true) inputs
unfolding add_missing
add_missing-new [] missing = tt
add_missing-new (i ∷ inputs) missing = (
  add_missing-old inputs (HashSet.insert i missing) i (HashSet.contains-insert_self i missing),
  add_missing-new inputs (HashSet.insert i missing),
)

module _ (P : ℕ → Type 0) (g : ℕ) (p : P g) where
  AllGroups : HashMap ℕ (HashSet ℕ) → Type 0
  AllGroups input_of =
      (f : ℕ) (groups : HashSet ℕ) → HashMap.get f input_of ≡ some groups → All P groups

  add_inputs-AllGroups :
      (inputs : List ℕ) (input_of : HashMap ℕ (HashSet ℕ))
      → AllGroups input_of
      → AllGroups (add_inputs g inputs input_of)
  unfolding add_inputs AllGroups
  add_inputs-AllGroups [] input_of h = h
  add_inputs-AllGroups (i ∷ inputs) input_of h = add_inputs-AllGroups inputs _ λ f groups e.
      elim (HashMap.get-insert_cases i f (HashSet.insert g (or_default (HashMap.get i input_of)))
        groups input_of e) [
          | inl (_, same) ↦
              subst (All P) same
                (HashSet.All-insert P g _ p (or_default_lem (HashMap.get i input_of) (h i)))
          | inr before ↦ h f groups before
        ]
    where
      or_default_lem :
          (o : Option (HashSet ℕ))
          → ((gs : HashSet ℕ) → o ≡ some gs → All P gs)
          → All P (or_default o)
      or_default_lem none k = tt
      or_default_lem (some gs) k = k gs refl

module _ {F : Type 0} (dag : ExecutionDagData F) (c : ℕ)
    (clients : HashMap ℕ (SchedulerClientData F)) where
  -- An entry of the queue is of an older client, or of the new one.
  abbrev pub IsOldOrNew : SchedulerClientData F → ReadyExec → Type 0
  IsOldOrNew client e =
      ((e.client ≢ c) × CanRun clients e.client e.group)
      ⊎ ((e.client ≡ c) × Executable client e.group)

  pub record IsPartial (p : SchedulerClientData F × List ReadyExec) : Type 0 where
    pub same_dag : p.0.dag ≡ dag
    pub sound : IsClientSound p.0
    pub queue : All (IsOldOrNew p.0) p.1

  module _ (group : ExecutionGroup F) (client : SchedulerClientData F) (ready : List ReadyExec)
      (known : HashMap.get group.uuid dag.execution_groups ≡ some group)
      (h : IsPartial (client, ready)) where
    abbrev missing : HashSet ℕ
    missing =
        add_missing (dependencies group) (or_default (HashMap.get group.uuid client.missing_deps))

    abbrev deps_with : HashMap ℕ (HashSet ℕ)
    deps_with = HashMap.insert group.uuid missing client.missing_deps

    -- The client with the inputs of the group, and given waiting and ready groups.
    abbrev with_group : HashMap ℕ (HashSet ℕ) → HashSet ℕ → SchedulerClientData F
    with_group deps groups = record client {
      input_of = add_inputs group.uuid (dependencies group) client.input_of;
      missing_deps = deps;
      ready_groups = groups;
    }

    known_here : HashMap.get group.uuid client.dag.execution_groups ≡ some group
    known_here = rw (h.same_dag) known

    Waits-with :
        (deps : HashMap ℕ (HashSet ℕ)) (groups : HashSet ℕ) (j : ℕ) (m : HashSet ℕ)
        → HashMap.get j deps_with ≡ some m
        → Waits (with_group deps groups) j m
    Waits-with deps groups j m e =
        elim (HashMap.get-insert_cases group.uuid j missing m client.missing_deps e) [
          | inl (same, value) ↦ record {
            group = group;
            known =
                subst (λ x. HashMap.get x client.dag.execution_groups ≡ some group) same known_here;
            available =
                All-imp (dependencies group)
                  (λ f k. inl (subst (λ x. HashSet.contains f x ≡ true) value k))
                  (add_missing-new (dependencies group)
                    (or_default (HashMap.get group.uuid client.missing_deps)));
          }
          | inr before ↦
              let w = h.sound.waiting j m before in
              record { group = w.group; known = w.known; available = w.available }
        ]

    IsClientSound-with :
        (deps : HashMap ℕ (HashSet ℕ)) (groups : HashSet ℕ)
        → ((j : ℕ) (m : HashSet ℕ) → HashMap.get j deps ≡ some m → HashMap.get j deps_with ≡ some m)
        → IsClientSound (with_group deps groups)
    unfolding AllGroups
    IsClientSound-with deps groups sub = record {
      inputs =
          add_inputs-AllGroups (HasGroup client.dag) group.uuid (group, known_here)
            (dependencies group) client.input_of h.sound.inputs;
      waiting = λ j m e. Waits-with deps groups j m (sub j m e);
    }

    queue_with :
        (deps : HashMap ℕ (HashSet ℕ)) (groups : HashSet ℕ)
        → All (IsOldOrNew (with_group deps groups)) ready
    queue_with deps groups =
        All-imp ready
          (λ e r. elim r [
            | inl old ↦ inl old
            | inr (mine, run) ↦
                inr
                  (mine, record { group = run.group; known = run.known; available = run.available })
          ])
          h.queue

    add_group-IsPartial :
        (dag_priority : ℤ) → IsPartial (add_group dag_priority c group (client, ready))
    unfolding add_group
    add_group-IsPartial dag_priority =
        if_ind IsPartial (is_empty missing)
          (λ none_missing. record {
            same_dag = h.same_dag;
            sound =
                IsClientSound-with (HashMap.remove group.uuid deps_with) _
                  (λ j m e. HashMap.get-remove-some group.uuid j m deps_with e);
            queue = (
              inr (
                refl,
                record {
                  group = group;
                  known = known_here;
                  available =
                      All-imp (dependencies group)
                        (λ f k.
                          absurd (ground (arith, k, HashSet.contains_empty f missing none_missing)))
                        (add_missing-new (dependencies group)
                          (or_default (HashMap.get group.uuid client.missing_deps)));
                },
              ),
              queue_with _ _,
            );
          })
          (λ _. record {
            same_dag = h.same_dag;
            sound = IsClientSound-with deps_with client.ready_groups (λ j m e. e);
            queue = queue_with _ _;
          })

  pub add_groups-IsPartial :
      (dag_priority : ℤ) (groups : List (ExecutionGroup F))
      (p : SchedulerClientData F × List ReadyExec)
      → All (λ g. HashMap.get g.uuid dag.execution_groups ≡ some g) groups
      → IsPartial p
      → IsPartial (add_groups dag_priority c groups p)
  unfolding add_groups
  add_groups-IsPartial dag_priority [] p known h = h
  add_groups-IsPartial dag_priority (g ∷ gs) (client, ready) known h =
      add_groups-IsPartial dag_priority gs _ known.1
        (add_group-IsPartial g client ready known.0 h dag_priority)

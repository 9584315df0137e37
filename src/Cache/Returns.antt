-- ===== src/Cache/Returns.antt =====
-- The keys and entries of a group whose files have handles: key.rs and entry.rs of
-- task-maker-cache/src.
use task_maker_rust.Base.{
  ℕ, ◌≡◌, refl, ◌∙◌, ap, subst, inl, inr, String, Bool, Option, none, some, List, [], ◌∷◌, ◌++◌,
  All, All-imp, length, map, arith,
}
use mathlib.Core.Option.{some-injective}
use task_maker_rust.Base.Options.{>>=-eq-some, map_all}
use task_maker_rust.Base.Tests.{nat_eq, string_eq, Option-cases}
use task_maker_rust.Base.HashMap
use task_maker_rust.Base.HashMap.{HashMap, values}
use task_maker_rust.Dag.Execution.{
  Execution, ExecutionInput, ExecutionInputBehaviour, from_file, ExecutionResult, File,
}
use task_maker_rust.Dag.Group.{
  ExecutionGroup, stdin_dependency, captured, exec_dependencies, exec_outputs, dependencies_of,
  outputs_of, dependencies, outputs,
}
use task_maker_rust.Cache.Key.{
  Names, CacheKey, CacheKeyItem, cache_key_eq, key_args, stdin_key, input_key, key_item,
  key_of_group,
}
use task_maker_rust.Cache.Entry.{
  CacheEntry, CacheEntryItem, captured_key, output_key, item_of_execution, items_of_executions,
  entry_of_group,
}
use task_maker_rust.Cache.Stored.{All-append_inv}
use task_maker_rust.Scheduler.Soundness.Invariant.{HasHandle}

pub length-map_all :
    {A B : Type 0} (f : A → Option B) (xs : List A) (ys : List B)
    → map_all f xs ≡ some ys
    → length xs ≡ length ys
unfolding map_all
length-map_all f [] ys h = ap length (some-injective _ _ h)
length-map_all f (x ∷ xs) ys h =
    let (y, e, h1) = >>=-eq-some (f x) _ h in
    let (rest, e2, h2) = >>=-eq-some (map_all f xs) _ h1 in
    let same = length-map_all f xs rest e2 in
    subst (λ l. length (x ∷ xs) ≡ length l) (some-injective _ _ h2) (omega (arith, same))

-- A `map_all` whose calls all return, returns.
map_all-found :
    {A B : Type 0} (f : A → Option B) (xs : List A)
    → All (λ x. (y : B) × (f x ≡ some y)) xs
    → (ys : List B) × (map_all f xs ≡ some ys)
unfolding map_all
map_all-found f [] h = ([], refl)
map_all-found f (x ∷ xs) ((y, e), rest) =
    let (ys, es) = map_all-found f xs rest in (y ∷ ys, rw (e, es) refl)

All-of_map :
    {A B : Type 0} (P : B → Type 0) (f : A → B) (xs : List A)
    → All P (map f xs)
    → All (λ x. P (f x)) xs
All-of_map P f [] h = tt
All-of_map P f (x ∷ xs) (here, rest) = (here, All-of_map P f xs rest)

handle-found :
    (handles : HashMap ℕ ℕ) (f : ℕ)
    → HasHandle handles f
    → (key : ℕ) × (HashMap.get f handles ≡ some key)
handle-found handles f h = elim (Option-cases (HashMap.get f handles)) [
  | inl gone ↦ absurd (ground (arith, gone))
  | inr found ↦ found
]

module _ (handles : HashMap ℕ ℕ) where
  stdin_key-found :
      (b : ExecutionInputBehaviour)
      → All (HasHandle handles) (stdin_dependency b)
      → (k : Option ℕ) × (stdin_key handles b ≡ some k)
  unfolding stdin_key stdin_dependency
  stdin_key-found (from_file file) h =
      let (key, e) = handle-found handles file h.0 in (some key, rw e refl)
  stdin_key-found _ h = (none, refl)

  input_key-found :
      (p : String × ExecutionInput)
      → HasHandle handles (p.1).file
      → (k : String × ℕ × Bool) × (input_key handles p ≡ some k)
  unfolding input_key
  input_key-found (path, input) h =
      let (key, e) = handle-found handles input.file h in ((path, key, input.executable), rw e refl)

  output_key-found :
      (p : String × File)
      → HasHandle handles (p.1).uuid
      → (k : String × ℕ) × (output_key handles p ≡ some k)
  unfolding output_key
  output_key-found (path, file) h =
      let (key, e) = handle-found handles file.uuid h in ((path, key), rw e refl)

  module _ {F : Type 0} (names : Names) where
    key_item-found :
        (group : ExecutionGroup F) (exec : Execution F)
        → All (HasHandle handles) (exec_dependencies exec)
        → (item : CacheKeyItem) × (key_item names handles group exec ≡ some item)
    unfolding key_item exec_dependencies
    key_item-found group exec h =
        let (read, given) = All-append_inv (HasHandle handles) (stdin_dependency exec.stdin) _ h in
        let (stdin, e1) = stdin_key-found exec.stdin read in
        let (inputs, e2) = map_all-found (input_key handles) exec.input_files (
          All-imp exec.input_files input_key-found (
            All-of_map (λ i. HasHandle handles i.file) (λ p. p.1) exec.input_files
              (All-of_map (HasHandle handles) (λ i. i.file) (values exec.input_files) given))) in
        (
          record {
            command = exec.command;
            args = key_args names group.fifo exec.args;
            stdin = stdin;
            inputs = names.sort_inputs inputs;
            env = names.sort_env exec.env;
          },
          rw (e1, e2) refl,
        )

    key_items-found :
        (group : ExecutionGroup F) (execs : List (Execution F))
        → All (HasHandle handles) (dependencies_of execs)
        → All (λ e. (item : CacheKeyItem) × (key_item names handles group e ≡ some item)) execs
    unfolding dependencies_of
    key_items-found group [] h = tt
    key_items-found group (e ∷ es) h =
        let (here, rest) = All-append_inv (HasHandle handles) (exec_dependencies e) _ h in
        (key_item-found group e here, key_items-found group es rest)

    -- A group whose dependencies have handles has a key, with an item for each execution.
    pub key_of_group-found :
        (group : ExecutionGroup F)
        → All (HasHandle handles) (dependencies group)
        → (key : CacheKey) × (key_of_group names group handles ≡ some key)
    unfolding key_of_group dependencies
    key_of_group-found group h =
        let (items, e) =
          map_all-found (key_item names handles group) group.executions
            (key_items-found group group.executions h) in
        (record { items = items }, rw e refl)

    pub length-key_of_group :
        (group : ExecutionGroup F) (key : CacheKey)
        → key_of_group names group handles ≡ some key
        → length group.executions ≡ length key.items
    unfolding key_of_group
    length-key_of_group group key h =
        let (items, e, h1) =
          >>=-eq-some (map_all (key_item names handles group) group.executions) _ h in
        length-map_all (key_item names handles group) group.executions items e
        ∙ ap (λ (k : CacheKey). length k.items) (some-injective _ _ h1)

  module _ {F : Type 0} where
    item_of_execution-found :
        (exec : Execution F) (result : ExecutionResult F)
        → All (HasHandle handles) (exec_outputs exec)
        → (item : CacheEntryItem F) × (item_of_execution exec handles result ≡ some item)
    unfolding item_of_execution exec_outputs
    item_of_execution-found exec result h =
        let (captures, written) =
          All-append_inv (HasHandle handles) (captured exec.stdout ++ captured exec.stderr) _ h in
        let (keys, e) = map_all-found (output_key handles) exec.output_files (
          All-imp exec.output_files output_key-found (
            All-of_map (λ f. HasHandle handles f.uuid) (λ p. p.1) exec.output_files
              (All-of_map (HasHandle handles) (λ f. f.uuid) (values exec.output_files) written))) in
        (
          record {
            result = record result { stdout = none; stderr = none };
            limits = exec.limits;
            stdout = captured_key handles exec.stdout;
            stderr = captured_key handles exec.stderr;
            outputs = keys;
          },
          rw e refl,
        )

    items_of_executions-found :
        (execs : List (Execution F)) (results : List (ExecutionResult F))
        → All (HasHandle handles) (outputs_of execs)
        → length execs ≡ length results
        → (items : List (CacheEntryItem F)) × (items_of_executions execs handles results
            ≡ some items)
          × (length execs ≡ length items)
    unfolding items_of_executions outputs_of
    items_of_executions-found [] results h each = ([], refl, refl)
    items_of_executions-found (e ∷ es) [] h each = absurd (omega (arith, each))
    items_of_executions-found (e ∷ es) (r ∷ rs) h each =
        let (here, rest) = All-append_inv (HasHandle handles) (exec_outputs e) _ h in
        let (item, e1) = item_of_execution-found e r here in
        let (items, e2, same) = items_of_executions-found es rs rest (omega (arith, each)) in
        (item ∷ items, rw (e1, e2) refl, omega (arith, same))

    -- The entry of a run that has a result for each execution.
    pub entry_of_group-found :
        (group : ExecutionGroup F) (results : List (ExecutionResult F))
        → All (HasHandle handles) (outputs group)
        → length group.executions ≡ length results
        → (entry : CacheEntry F) × (entry_of_group group handles results ≡ some entry)
          × (length group.executions ≡ length entry.items)
    unfolding entry_of_group outputs
    entry_of_group-found group results h each =
        let (items, e, same) = items_of_executions-found group.executions results h each in
        (
          record {
            items = items;
            extra_time = (group.config).extra_time;
            extra_memory = (group.config).extra_memory;
          },
          rw e refl,
          same,
        )

-- ===== src/Cache/RoundTrip.antt =====
-- `Cache::get` after `Cache::insert` of task-maker-cache/src/lib.rs.
use task_maker_rust.Base.{
  ℕ, ◌^◌, ap, ◌≡◌, ◌≢◌, refl, sym, ◌∙◌, ◌<◌, subst, true, some, List, [], ◌∷◌, All, arith,
}
use mathlib.Core.Option.{some-injective}
use task_maker_rust.Base.Options.{>>=-eq-some, map_all}
use task_maker_rust.Base.Tests.{nat_eq, string_eq, if_ind}
use task_maker_rust.Base.HashMap
use task_maker_rust.Base.HashMap.{HashMap, values}
use task_maker_rust.Base.Float.{Float}
use task_maker_rust.Dag.Execution.{Execution, ExecutionResult, is_success}
use task_maker_rust.Dag.Limits.{ExecutionLimits}
use task_maker_rust.Dag.Group.{ExecutionGroup, outputs}
use task_maker_rust.Cache.Key.{Names, CacheKey, cache_key_eq, key_of_group}
use task_maker_rust.Cache.Entry.{
  CacheEntry, CacheEntryItem, FileStore, output_key, item_of_execution, items_of_executions,
  entry_of_group, add_all_outputs, entry_outputs,
}
use task_maker_rust.Base.Words.{sub64}
use task_maker_rust.Cache.Compatible.{
  check_limits, compatible_item, compatible_items, is_compatible,
}
use task_maker_rust.Cache.Query.{CacheFile, or_empty, put_entry, find_entry, insert, get}
use task_maker_rust.Cache.Limits.{FloatLaws, check_limits_refl}
use task_maker_rust.Scheduler.State.{CacheResult, miss, hit}
use task_maker_rust.Scheduler.Soundness.Invariant.{HasHandle}
use task_maker_rust.Cache.Stored.{IsStored, add_all_outputs_total}

limits-item_of_execution :
    {F : Type 0} (exec : Execution F) (file_keys : HashMap ℕ ℕ) (result : ExecutionResult F)
    (item : CacheEntryItem F)
    → item_of_execution exec file_keys result ≡ some item
    → exec.limits ≡ item.limits
unfolding item_of_execution
limits-item_of_execution exec file_keys result item made =
    let (keys, e, rest) = >>=-eq-some (map_all (output_key file_keys) exec.output_files) _ made in
    ap (λ i. i.limits) (some-injective _ _ rest)

module _ {F : Type 0} ⦃fl : Float F⦄ (laws : FloatLaws fl) where
  -- The numbers of a group fit a `u64`.
  pub record HasBounds (group : ExecutionGroup F) : Type 0 where
    pub extra : (group.config).extra_memory < 2 ^ 64
    pub memory :
        All
          (λ (e : Execution F). (m : ℕ) → (e.limits).memory ≡ some m → m < 2 ^ 64)
          group.executions

  check_limits_same :
      (l r : ExecutionLimits F) (x x' : F) (y y' : ℕ)
      → l ≡ r
      → x ≡ x'
      → y ≡ y'
      → y' < 2 ^ 64
      → ((m : ℕ) → r.memory ≡ some m → m < 2 ^ 64)
      → check_limits (fl.sub x x') (sub64 y y') l r ≡ true
  check_limits_same l r x x' y y' el ex ey small bound =
      rw (el, ex, ey) (check_limits_refl laws r x' y' small bound)

  compatible_item_self :
      (entry : CacheEntry F) (group : ExecutionGroup F) (exec : Execution F)
      (item : CacheEntryItem F)
      → entry.extra_time ≡ (group.config).extra_time
      → entry.extra_memory ≡ (group.config).extra_memory
      → (group.config).extra_memory < 2 ^ 64
      → ((m : ℕ) → (exec.limits).memory ≡ some m → m < 2 ^ 64)
      → exec.limits ≡ item.limits
      → compatible_item entry group exec item ≡ true
  unfolding compatible_item
  compatible_item_self entry group exec item t m small bound same =
      if_ind (λ b. b ≡ true) (is_success (item.result).status)
        (λ _.
          check_limits_same item.limits exec.limits entry.extra_time (group.config).extra_time
            entry.extra_memory (group.config).extra_memory (sym same) t m small bound)
        (λ _.
          check_limits_same exec.limits item.limits (group.config).extra_time entry.extra_time
            (group.config).extra_memory entry.extra_memory same (sym t) (sym m) (omega arith)
            (λ k e. bound k (ap (λ (l : ExecutionLimits F). l.memory) same ∙ e)))

  compatible_items_self :
      (entry : CacheEntry F) (group : ExecutionGroup F) (execs : List (Execution F))
      (file_keys : HashMap ℕ ℕ) (results : List (ExecutionResult F))
      (items : List (CacheEntryItem F))
      → entry.extra_time ≡ (group.config).extra_time
      → entry.extra_memory ≡ (group.config).extra_memory
      → (group.config).extra_memory < 2 ^ 64
      → All (λ (e : Execution F). (m : ℕ) → (e.limits).memory ≡ some m → m < 2 ^ 64) execs
      → items_of_executions execs file_keys results ≡ some items
      → compatible_items entry group execs items ≡ true
  unfolding compatible_items items_of_executions
  compatible_items_self entry group [] keys results items t m small bound made = refl
  compatible_items_self entry group (e ∷ es) keys [] items t m small bound made =
      subst (λ is. compatible_items entry group (e ∷ es) is ≡ true) (some-injective _ _ made) refl
  compatible_items_self entry group (e ∷ es) keys (r ∷ rs) items t m small bound made =
      let (item, e1, h1) = >>=-eq-some (item_of_execution e keys r) _ made in
      let (rest, e2, h2) = >>=-eq-some (items_of_executions es keys rs) _ h1 in
      subst (λ is. compatible_items entry group (e ∷ es) is ≡ true) (some-injective _ _ h2)
        (rw
          (compatible_item_self entry group e item t m small bound.0
            (limits-item_of_execution e keys r item e1))
          (compatible_items_self entry group es keys rs rest t m small bound.1 e2))

  -- The entry that `insert` makes has its outputs and is compatible with its group.
  entry_of_group-answers :
      (file_store : FileStore) (group : ExecutionGroup F) (file_keys : HashMap ℕ ℕ)
      (results : List (ExecutionResult F)) (entry : CacheEntry F)
      → IsStored file_store file_keys
      → All (HasHandle file_keys) (outputs group)
      → HasBounds group
      → entry_of_group group file_keys results ≡ some entry
      → ((o : HashMap ℕ ℕ) × (entry_outputs file_store entry group ≡ some o))
        × (is_compatible entry group ≡ true)
  unfolding entry_of_group entry_outputs is_compatible outputs
  entry_of_group-answers file_store group keys results entry stored h bounds made =
      let (items, e, rest) =
        >>=-eq-some (items_of_executions group.executions keys results) _ made in
      subst
        (λ (n : CacheEntry F).
          ((o : HashMap ℕ ℕ) × (add_all_outputs file_store group.executions n.items [] ≡ some o))
          × (compatible_items n group group.executions n.items ≡ true))
        (some-injective _ _ rest)
        (
          add_all_outputs_total file_store keys group.executions results items [] stored h e,
          compatible_items_self _ group group.executions keys results items refl refl bounds.extra
              bounds.memory e,
        )

  -- An entry that answers is found, or one before it.
  find_entry-put_entry :
      (file_store : FileStore) (group : ExecutionGroup F) (entry : CacheEntry F)
      (set : List (CacheEntry F)) (o : HashMap ℕ ℕ)
      → entry_outputs file_store entry group ≡ some o
      → is_compatible entry group ≡ true
      → find_entry file_store group (put_entry entry set) ≢ miss
  unfolding find_entry put_entry
  find_entry-put_entry file_store group entry [] o outs fits = ground (arith, outs, fits)
  find_entry-put_entry file_store group entry (e ∷ set) o outs fits =
      ground (arith, outs, fits, find_entry-put_entry file_store group entry set o outs fits)

  hit_of_ne-miss :
      (r : CacheResult F)
      → r ≢ miss
      → (result : List (ExecutionResult F)) × (outs : HashMap ℕ ℕ) × (r ≡ hit result outs)
  hit_of_ne-miss miss h = absurd (h refl)
  hit_of_ne-miss (hit result outs) h = (result, outs, refl)

  get_of_find_entry :
      (names : Names) (file_store : FileStore) (file : CacheFile F) (group : ExecutionGroup F)
      (file_keys : HashMap ℕ ℕ) (key : CacheKey) (set : List (CacheEntry F)) (r : CacheResult F)
      → key_of_group names group file_keys ≡ some key
      → HashMap.get key file.entries ≡ some set
      → find_entry file_store group set ≡ r
      → get names file_store file group file_keys ≡ some r
  unfolding get
  get_of_find_entry names file_store file group keys key set r e at found = rw (e, at, found) refl

  -- What was inserted is answered: after a successful `insert` of a group, with a handle for each
  -- of its outputs, the file of each handle in the store, and memory limits that fit a `u64`,
  -- `get` of the same group and handles is a hit. The arithmetic of times is that of finite
  -- numbers.
  pub get-insert :
      (names : Names) (file_store : FileStore) (file file' : CacheFile F) (group : ExecutionGroup F)
      (file_keys : HashMap ℕ ℕ) (results : List (ExecutionResult F))
      → IsStored file_store file_keys
      → All (HasHandle file_keys) (outputs group)
      → HasBounds group
      → insert names file group file_keys results ≡ some file'
      → (answer : List (ExecutionResult F)) × (outs : HashMap ℕ ℕ) × (get names file_store file'
            group file_keys
          ≡ some (hit answer outs))
  unfolding insert
  get-insert names file_store file file' group keys results stored h bounds made =
      let (key, e1, h1) = >>=-eq-some (key_of_group names group keys) _ made in
      let (entry, e2, h2) = >>=-eq-some (entry_of_group group keys results) _ h1 in
      let old = or_empty (HashMap.get key file.entries) in
      let answers = entry_of_group-answers file_store group keys results entry stored h bounds e2 in
      let found =
        hit_of_ne-miss (find_entry file_store group (put_entry entry old))
          (find_entry-put_entry file_store group entry old (answers.0).0 (answers.0).1 answers.1) in
      subst
        (λ (f : CacheFile F).
          (answer : List (ExecutionResult F)) × (outs : HashMap ℕ ℕ) × (get names file_store f group
              keys
            ≡ some (hit answer outs)))
        (some-injective _ _ h2)
        (
          found.0,
          found.1,
          get_of_find_entry names file_store _ group keys key (put_entry entry old) _ e1
              (HashMap.get-insert_self key (put_entry entry old) file.entries) found.2,
        )

-- ===== src/Scheduler/Caching.antt =====
-- The scheduler with the cache of task-maker-cache/src: the laws that it relies on hold there.
use task_maker_rust.Base.{
  ℕ, suc, ◌≡◌, refl, sym, ◌∙◌, ap, subst, inl, inr, true, some, List, [], All, length,
}
use mathlib.Core.Option.{some-injective}
use task_maker_rust.Base.Options.{◌>>=◌, >>=-eq-some}
use task_maker_rust.Base.Tests.{nat_eq}
use task_maker_rust.Base.HashMap
use task_maker_rust.Base.HashMap.{HashMap}
use task_maker_rust.Base.Float.{Float}
use task_maker_rust.Dag.Execution.{ExecutionResult}
use task_maker_rust.Dag.Group.{ExecutionGroup, dependencies, outputs}
use task_maker_rust.Cache.Key.{Names, CacheKey, cache_key_eq, key_of_group}
use task_maker_rust.Cache.Entry.{CacheEntry, FileStore, entry_outputs}
use task_maker_rust.Cache.Query.{CacheFile, or_empty, put_entry, find_entry, insert, get}
use task_maker_rust.Cache.Answers.{find_entry-hit, All-or_empty, All-put_entry}
use task_maker_rust.Cache.Returns.{key_of_group-found, length-key_of_group, entry_of_group-found}
use task_maker_rust.Cache.Gained.{add_all_outputs-Gains}
use task_maker_rust.Scheduler.State.{Cache, CacheResult, hit}
use task_maker_rust.Scheduler.Soundness.Invariant.{HasHandle, CacheInvariant}
use task_maker_rust.Scheduler.Soundness.Completing.{CacheLaws}

module _ {F : Type 0} ⦃fl : Float F⦄ (names : Names) (stores : ℕ → FileStore) where
  -- The cache of the scheduler: a cache file, and the number of calls so far. `stores n` is the
  -- file store as it is at call `n`.
  unfoldable pub cache_of : Cache F (CacheFile F × ℕ)
  unfolding get insert
  cache_of = record {
    lookup = λ c group handles. do
      answer ← get names (stores c.1) c.0 group handles
      some (answer, (c.0, suc c.1));
    store = λ c group handles result. do
      file ← insert names c.0 group handles result
      some (file, suc c.1);
  }

module _ {F : Type 0} where
  -- Each entry has as many items as the key under which it stands.
  abbrev pub IsComplete : CacheFile F → Type 0
  IsComplete file =
      (key : CacheKey) (set : List (CacheEntry F))
      → HashMap.get key file.entries ≡ some set
      → All (λ e. length key.items ≡ length e.items) set

  instance abbrev pub complete_file : CacheInvariant (CacheFile F × ℕ)
  complete_file = record { IsValid = λ c. IsComplete c.0 }

module _ {F : Type 0} ⦃fl : Float F⦄ (names : Names) where
  find_entry-HasHandle :
      (file_store : FileStore) (group : ExecutionGroup F) (set : List (CacheEntry F))
      (result : List (ExecutionResult F)) (outs : HashMap ℕ ℕ)
      → All (λ e. length group.executions ≡ length e.items) set
      → find_entry file_store group set ≡ hit result outs
      → All (HasHandle outs) (outputs group)
  unfolding outputs entry_outputs
  find_entry-HasHandle file_store group set result outs each h =
      let found =
        find_entry-hit file_store (λ (e : CacheEntry F). length group.executions ≡ length e.items)
          group set result outs each h in
      (add_all_outputs-Gains file_store group.executions (found.entry).items [] outs found.holds
        found.has_outputs).0

  get-HasHandle :
      (file_store : FileStore) (file : CacheFile F) (group : ExecutionGroup F)
      (handles : HashMap ℕ ℕ) (result : List (ExecutionResult F)) (outs : HashMap ℕ ℕ)
      → IsComplete file
      → get names file_store file group handles ≡ some (hit result outs)
      → All (HasHandle outs) (outputs group)
  unfolding get
  get-HasHandle file_store file group handles result outs complete h =
      let (key, e, h1) = >>=-eq-some (key_of_group names group handles) _ h in
      let same = length-key_of_group handles names group key e in
      find_entry-HasHandle file_store group (or_empty (HashMap.get key file.entries)) result outs
        (All-or_empty (λ (x : CacheEntry F). length group.executions ≡ length x.items)
          (HashMap.get key file.entries) (λ set there. rw same (complete key set there)))
        (some-injective _ _ h1)

  get-found :
      (file_store : FileStore) (file : CacheFile F) (group : ExecutionGroup F)
      (handles : HashMap ℕ ℕ)
      → All (HasHandle handles) (dependencies group)
      → (answer : CacheResult F) × (get names file_store file group handles ≡ some answer)
  unfolding get
  get-found file_store file group handles deps =
      let (key, e) = key_of_group-found handles names group deps in
      (find_entry file_store group (or_empty (HashMap.get key file.entries)), rw e refl)

  insert-IsComplete :
      (file : CacheFile F) (group : ExecutionGroup F) (handles : HashMap ℕ ℕ)
      (result : List (ExecutionResult F))
      → IsComplete file
      → All (HasHandle handles) (dependencies group)
      → All (HasHandle handles) (outputs group)
      → length group.executions ≡ length result
      → (file' : CacheFile F) × (insert names file group handles result ≡ some file')
        × IsComplete file'
  unfolding insert
  insert-IsComplete file group handles result complete deps outs each =
      let (key, e1) = key_of_group-found handles names group deps in
      let (entry, e2, items) = entry_of_group-found handles group result outs each in
      let same = length-key_of_group handles names group key e1 in
      let old = or_empty (HashMap.get key file.entries) in
      let all : All (λ (x : CacheEntry F). length key.items ≡ length x.items)
          (put_entry entry old) =
        All-put_entry (λ (x : CacheEntry F). length key.items ≡ length x.items) entry old
          (sym same ∙ items)
          (All-or_empty (λ (x : CacheEntry F). length key.items ≡ length x.items)
            (HashMap.get key file.entries) (complete key)) in
      (
        record { entries = HashMap.insert key (put_entry entry old) file.entries; dirty = true },
        rw (e1, e2) refl,
        λ k set there.
            elim (HashMap.get-insert_cases key k (put_entry entry old) set file.entries there) [
              | inl (mine, now) ↦
                  subst
                    (λ (j : CacheKey).
                      All (λ (x : CacheEntry F). length j.items ≡ length x.items) set)
                    mine
                    (subst (All (λ (x : CacheEntry F). length key.items ≡ length x.items)) now all)
              | inr before ↦ complete k set before
            ],
      )

module _ {F : Type 0} ⦃fl : Float F⦄ (names : Names) (stores : ℕ → FileStore) where
  -- The modelled cache, over any file store at each of its calls, does what the scheduler relies
  -- on. While each entry has as many items as its key, `get` and `insert` do not panic for a group
  -- whose files have handles, a hit has a handle for each output of the group, and the entries
  -- stay so after `get` and after `insert` of a run with a result for each execution.
  pub cache_of-CacheLaws : CacheLaws (cache_of {F = F} names stores)
  unfolding cache_of
  cache_of-CacheLaws = record {
    lookup_found = λ c group handles valid deps.
        let (answer, e) = get-found names (stores c.1) c.0 group handles deps in
        ((answer, (c.0, suc c.1)), rw e refl, valid);
    lookup_outputs = λ c c' group handles result outs valid h.
        let (answer, e, h1) = >>=-eq-some (get names (stores c.1) c.0 group handles) _ h in
        get-HasHandle names (stores c.1) c.0 group handles result outs valid
          (e ∙ ap some (ap (λ p. p.0) (some-injective _ _ h1)));
    store_found = λ c group handles result valid deps outs each.
        let (file, e, kept) =
          insert-IsComplete names c.0 group handles result valid deps outs each in
        ((file, suc c.1), rw e refl, kept);
  }

-- ===== src/Cache/Answers.antt =====
-- What `Cache::get` of task-maker-cache/src/lib.rs answers, and the runs that were stored.
use task_maker_rust.Base.{
  ℕ, ◌^◌, ◌≡◌, refl, ◌<◌, inl, inr, true, Option, none, some, List, [], ◌∷◌, length, All,
}
use task_maker_rust.Base.Tests.{nat_eq, string_eq, Bool-cases, Option-cases, if_ind}
use task_maker_rust.Base.HashMap
use task_maker_rust.Base.HashMap.{HashMap, values}
use task_maker_rust.Base.Float.{Float}
use task_maker_rust.Dag.Execution.{Execution, ExecutionResult, success, status}
use task_maker_rust.Dag.Group.{ExecutionGroup}
use task_maker_rust.Cache.Key.{cache_key_eq}
use task_maker_rust.Cache.Entry.{CacheEntry, CacheEntryItem, FileStore, entry_outputs}
use task_maker_rust.Cache.Compatible.{same_limits, is_compatible}
use task_maker_rust.Cache.Query.{or_empty, put_entry, replay, find_entry}
use task_maker_rust.Cache.Limits.{FloatLaws, Within}
use task_maker_rust.Scheduler.State.{hit}

pub All-or_empty {κ} :
    {F : Type 0} (P : CacheEntry F → Type κ) (o : Option (List (CacheEntry F)))
    → ((set : List (CacheEntry F)) → o ≡ some set → All P set)
    → All P (or_empty o)
All-or_empty P none h = tt
All-or_empty P (some set) h = h set refl

module _ {F : Type 0} ⦃fl : Float F⦄ where
  pub All-put_entry :
      (P : CacheEntry F → Type 0) (entry : CacheEntry F) (set : List (CacheEntry F))
      → P entry
      → All P set
      → All P (put_entry entry set)
  unfolding put_entry
  All-put_entry P entry [] p ps = (p, tt)
  All-put_entry P entry (e ∷ set) p ps =
      if_ind (All P) (same_limits e entry) (λ _. (p, ps.1))
        (λ _. (ps.0, All-put_entry P entry set p ps.1))

  -- What a worker reports: a success is within the limits of its execution.
  abbrev pub IsHonest : CacheEntryItem F → Type 0
  IsHonest item = (item.result).status ≡ success → Within (item.result).resources item.limits

  -- The group asks with the extra time and memory of the entry, which fits a `u64`.
  pub record SameExtra (entry : CacheEntry F) (group : ExecutionGroup F) : Type 0 where
    pub time : (group.config).extra_time ≡ entry.extra_time
    pub memory : (group.config).extra_memory ≡ entry.extra_memory
    pub bound : entry.extra_memory < 2 ^ 64

  module _ (file_store : FileStore) where
    -- An entry of which something is known, with all its outputs and compatible, is what is replayed.
    pub record Found {κ} (P : CacheEntry F → Type κ) (group : ExecutionGroup F)
        (result : List (ExecutionResult F)) (outs : HashMap ℕ ℕ) : Type κ where
      pub entry : CacheEntry F
      pub holds : P entry
      pub has_outputs : entry_outputs file_store entry group ≡ some outs
      pub compatible : is_compatible entry group ≡ true
      pub replayed : result ≡ replay file_store group.executions entry.items

    pub find_entry-hit {κ} :
        (P : CacheEntry F → Type κ) (group : ExecutionGroup F) (set : List (CacheEntry F))
        (result : List (ExecutionResult F)) (outs : HashMap ℕ ℕ)
        → All P set
        → find_entry file_store group set ≡ hit result outs
        → Found P group result outs
    unfolding find_entry
    find_entry-hit P group [] result outs ps h = cc
    find_entry-hit P group (e ∷ set) result outs ps h =
        elim (Option-cases (entry_outputs file_store e group)) [
          | inl gone ↦ find_entry-hit P group set result outs ps.1 (rw (gone, find_entry) at h)
          | inr (o, there) ↦ elim (Bool-cases (is_compatible e group)) [
            | inl fits ↦
                let same : hit (replay file_store group.executions e.items) o ≡ hit result outs =
                  rw (there, find_entry, fits) at h in
                record {
                  entry = e;
                  holds = ps.0;
                  has_outputs = cc;
                  compatible = fits;
                  replayed = cc;
                }
            | inr other ↦
                find_entry-hit P group set result outs ps.1 (rw (there, find_entry, other) at h)
          ]
        ]

  module _ (laws : FloatLaws fl) (file_store : FileStore) where
    -- What `get` may rely on in an entry: as many items as the group has executions, honest results,
    -- and the extra time and memory of the group.
    pub record IsTrusted (group : ExecutionGroup F) (entry : CacheEntry F) : Type 0 where
      pub complete : length group.executions ≡ length entry.items
      pub honest : All IsHonest entry.items
      pub extra : SameExtra entry group

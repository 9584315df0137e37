-- ===== src/Cache/Query.antt =====
-- task-maker-cache/src/lib.rs: `Cache::insert` and `Cache::get`, over the entries of the cache file
-- (storage.rs). `none` is a panic.
use task_maker_rust.Base.{ℕ, Bool, true, Option, none, some, List, [], ◌∷◌, if◌then◌else◌}
use task_maker_rust.Base.Options.{◌>>=◌}
use task_maker_rust.Base.HashMap
use task_maker_rust.Base.HashMap.{HashMap}
use task_maker_rust.Base.Float.{Float}
use task_maker_rust.Dag.Execution.{Execution, ExecutionResult, status}
use task_maker_rust.Dag.Group.{ExecutionGroup}
use task_maker_rust.Cache.Key.{Names, CacheKey, cache_key_eq, key_of_group}
use task_maker_rust.Cache.Entry.{
  CacheEntry, CacheEntryItem, FileStore, entry_of_group, entry_outputs,
}
use task_maker_rust.Cache.Compatible.{same_limits, is_compatible}
use task_maker_rust.Scheduler.State.{CacheResult, miss, hit}

-- `CacheFile`, without the path of the file on disk.
pub record CacheFile (F : Type 0) : Type 0 where
  pub entries : HashMap CacheKey (List (CacheEntry F))
  pub dirty : Bool

-- `or_default` of an entry of the map.
abbrev pub or_empty : {F : Type 0} → Option (List (CacheEntry F)) → List (CacheEntry F)
or_empty none = []
or_empty (some set) = set

-- The content of an output, if it was captured and the file can be read.
unfoldable pub stored_content : FileStore → Option ℕ → Option (List ℕ)
stored_content file_store key = do k ← key; handle ← file_store.get k; file_store.read handle

module _ {F : Type 0} ⦃fl : Float F⦄ where
  -- The first entry with the same limits is replaced, or the entry is added at the end.
  unfoldable pub put_entry : CacheEntry F → List (CacheEntry F) → List (CacheEntry F)
  put_entry entry [] = entry ∷ []
  put_entry entry (e ∷ set) = if same_limits e entry then entry ∷ set else e ∷ put_entry entry set

  -- The result of one execution, as it is answered from the cache.
  unfoldable pub replay_item : FileStore → Execution F → CacheEntryItem F → ExecutionResult F
  unfolding stored_content
  replay_item file_store exec item = record {
    status = status exec (item.result).status (item.result).resources;
    was_killed = (item.result).was_killed;
    was_cached = true;
    resources = (item.result).resources;
    stdout = stored_content file_store item.stdout;
    stderr = stored_content file_store item.stderr;
  }

  unfoldable pub replay :
      FileStore → List (Execution F) → List (CacheEntryItem F) → List (ExecutionResult F)
  unfolding replay_item
  replay file_store (exec ∷ execs) (item ∷ items) =
      replay_item file_store exec item ∷ replay file_store execs items
  replay file_store _ _ = []

  -- The loop of `get`: the first entry that is compatible and has all its outputs.
  unfoldable pub find_entry : FileStore → ExecutionGroup F → List (CacheEntry F) → CacheResult F
  find_entry file_store group [] = miss
  find_entry file_store group (entry ∷ set) = elim (entry_outputs file_store entry group) [
    | none ↦ find_entry file_store group set
    | some outputs ↦
        let rest = find_entry file_store group set in
        if is_compatible entry group
        then hit (replay file_store group.executions entry.items) outputs
        else rest
  ]

  module _ (names : Names) where
    -- `Cache::insert`.
    unfoldable pub insert :
        CacheFile F
        → ExecutionGroup F
        → HashMap ℕ ℕ
        → List (ExecutionResult F)
        → Option (CacheFile F)
    insert file group file_keys result = do
      key ← key_of_group names group file_keys
      entry ← entry_of_group group file_keys result
      some (record {
        entries =
            HashMap.insert key (put_entry entry (or_empty (HashMap.get key file.entries)))
              file.entries;
        dirty = true;
      })

    -- `Cache::get`.
    unfoldable pub get :
        FileStore → CacheFile F → ExecutionGroup F → HashMap ℕ ℕ → Option (CacheResult F)
    get file_store file group file_keys = do
      key ← key_of_group names group file_keys
      some (find_entry file_store group (or_empty (HashMap.get key file.entries)))

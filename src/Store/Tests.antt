-- ===== src/Store/Tests.antt =====
-- The store on three files, of which one has a handle, and the theorems there.
use task_maker_rust.Base.{
  ℕ, ◌≡◌, ◌≤◌, ◌<◌, ◌⊎◌, Bool, refl, true, false, none, some, List, [], ◌∷◌, arith,
}
use task_maker_rust.Base.Words.{add64, sub64}
use task_maker_rust.Base.HashMap
use task_maker_rust.Base.HashMap.{HashMap}
use task_maker_rust.Store.Index.{
  FileStoreKey, FileStoreIndex, FileStoreIndexItem, invalid_base_path, touch, add, need_flush,
  older, pop_newest, pop_entry, remove_entry, flush_loop, insert_all, finish, flush,
}
use task_maker_rust.Store.Handles.{
  LockedFiles, count_up, count_down, new_handle, clone_handle, drop_handle,
}
use task_maker_rust.Store.Disk.{
  FileStore, Io, remove_files, maybe_flush, give_up, save_index, index_file, write_file, store, get,
  concat,
}
use task_maker_rust.Base.HashMap.{contains_key}
use task_maker_rust.Base.Tests.{nat_eq}
use task_maker_rust.Store.Weights.{copies}
use task_maker_rust.Store.Summed.{IsSummed}
use task_maker_rust.Store.Counting.{
  Counts, drop_one, dropped, HandleStep-Counts, drop_handle-Counts,
}
use task_maker_rust.Store.Guarantee.{flushed, done, step, Holding-keeps, get-store}
use task_maker_rust.Store.Flushing.{flush-keeps}
use task_maker_rust.Store.Newest.{flush-newest_first}
use task_maker_rust.Store.Sizes.{store-IsSummed, maybe_flush-bound}
use task_maker_rust.Store.Lost.{flush-error_loses}

program : Unit {0}
unfolding HashMap.get HashMap.insert HashMap.remove add64 sub64 touch add need_flush older
    pop_newest pop_entry remove_entry flush_loop insert_all finish flush count_up count_down
    new_handle clone_handle drop_handle remove_files maybe_flush give_up save_index index_file
    write_file store get concat drop_one
program = tt

-- The file 1 is in use; of the others 2 was used last.
abbrev three_files : FileStoreIndex
three_files = record {
  total_size = 60;
  known_files =
      (1, record { size = 10; last_access = 5 })
      ∷ (2, record { size = 20; last_access = 9 })
      ∷ (3, record { size = 30; last_access = 7 })
      ∷ [];
}

abbrev in_use : HashMap FileStoreKey ℕ
in_use = (1, 1) ∷ []

abbrev always : FileStoreKey → Bool
always k = true

abbrev all_well : Io
all_well = record {
  create_dir = true;
  create_temp = true;
  write = true;
  rename = true;
  mark_readonly = true;
  read_metadata = true;
  store_index = true;
  remove_file = always;
  base_valid = always;
}

abbrev sample : FileStore
sample = record {
  locked_files = record { ref_counts = in_use };
  index = three_files;
  max_store_size = 60;
  min_store_size = 45;
  disk = (1, []) ∷ (2, []) ∷ (3, []) ∷ [];
}

three_files-AreDistinct : (k : ℕ) → copies k three_files.known_files ≤ 1
three_files-AreDistinct k = ground arith

sample-Counts : Counts sample.locked_files (1 ∷ [])
unfolding program
sample-Counts k = ground arith

-- Two is removed, though three was used before it.
newest_first : HashMap.get 2 (flush always in_use 45 three_files).0.known_files ≡ none
unfolding program
newest_first = refl

flush-newest_first_example : 7 ≤ 9
unfolding program
flush-newest_first_example =
    flush-newest_first always in_use 45 2 3 (record { size = 20; last_access = 9 })
      (record { size = 30; last_access = 7 }) refl three_files three_files-AreDistinct refl refl
      refl refl

three_files-IsSummed : IsSummed three_files
three_files-IsSummed = (refl, omega arith, three_files-AreDistinct)

HandleStep-Counts_example : Counts (record { ref_counts = [] }) []
unfolding program
HandleStep-Counts_example =
    HandleStep-Counts
      (dropped (record { key = 1 }) sample.locked_files (record { ref_counts = [] }) (1 ∷ [])
        (omega arith) refl)
      sample-Counts

drop_handle-Counts_example :
    (after : LockedFiles) × (drop_handle (record { key = 1 }) sample.locked_files ≡ some after)
    × Counts after []
unfolding program
drop_handle-Counts_example =
    drop_handle-Counts (record { key = 1 }) sample.locked_files (1 ∷ []) sample-Counts (omega arith)

flush_sample : (maybe_flush all_well sample).0.index.total_size ≡ 40
unfolding program
flush_sample = refl

Holding-keeps_example : HashMap.get 1 (maybe_flush all_well sample).0.disk ≡ some []
unfolding program
Holding-keeps_example =
    Holding-keeps 1 []
      (step (omega arith) (flushed all_well sample (1 ∷ []))
        (done (maybe_flush all_well sample).0 (1 ∷ [])))
      sample-Counts refl

abbrev content : List (List ℕ)
content = (1 ∷ 2 ∷ []) ∷ (3 ∷ []) ∷ []

abbrev with_four : FileStore
with_four = (store all_well 10 4 content sample).0

get-store_example :
    ((get 11 4 with_four).1 ≡ some (record { key = 4 }))
    × (HashMap.get 4 with_four.disk ≡ some (1 ∷ 2 ∷ 3 ∷ []))
unfolding program
get-store_example =
    get-store all_well 10 11 4 content sample with_four with_four (1 ∷ []) (4 ∷ 1 ∷ [])
      (record { key = 4 }) sample-Counts refl refl (done with_four (4 ∷ 1 ∷ []))

store-IsSummed_example :
    IsSummed with_four.index
    × IsSummed (get 10 4 sample).0.index
    × IsSummed (maybe_flush all_well sample).0.index
unfolding program
store-IsSummed_example =
    store-IsSummed all_well 10 4 content sample (λ k. refl) (omega arith) three_files-IsSummed

maybe_flush-bound_example :
    ((maybe_flush all_well sample).0.index.total_size < 60)
    ⊎ ((maybe_flush all_well sample).0.index.total_size ≤ 45)
    ⊎ ((k : FileStoreKey) (item : FileStoreIndexItem)
        → HashMap.get k (maybe_flush all_well sample).0.index.known_files ≡ some item
        → contains_key k sample.locked_files.ref_counts ≡ true)
maybe_flush-bound_example = maybe_flush-bound all_well sample three_files-IsSummed (λ k. refl)

flush-error_loses_example :
    ((flush (λ k. false) in_use 45 three_files).0.known_files ≡ [])
    × (10 ≤ (flush (λ k. false) in_use 45 three_files).0.total_size)
unfolding program
flush-error_loses_example =
    flush-error_loses (λ k. false) in_use 45 three_files invalid_base_path three_files-IsSummed refl
      1 (record { size = 10; last_access = 5 }) refl refl

abbrev kept : HashMap FileStoreKey FileStoreIndexItem
kept = (flush always in_use 45 three_files).0.known_files

flush-keeps_example :
    (HashMap.get 1 kept ≡ some (record { size = 10; last_access = 5 })
      → HashMap.get 1 three_files.known_files ≡ some (record { size = 10; last_access = 5 }))
    × (contains_key 1 in_use ≡ true
        → HashMap.get 1 three_files.known_files ≡ some (record { size = 10; last_access = 5 })
        → HashMap.get 1 kept ≡ some (record { size = 10; last_access = 5 }))
unfolding program
flush-keeps_example =
    flush-keeps always in_use 45 three_files three_files-AreDistinct refl 1
      (record { size = 10; last_access = 5 })

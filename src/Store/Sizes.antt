-- ===== src/Store/Sizes.antt =====
-- The operations of the store on its index, and the limits of the store.
use task_maker_rust.Base.{
  ℕ, ◌+◌, ◌^◌, ◌≤◌, ◌<◌, ◌≡◌, ◌⊎◌, true, not, Option, none, some, List, arith, inl, inr,
  if◌then◌else◌, leb,
}
use task_maker_rust.Base.Lists.{length}
use task_maker_rust.Base.Results.{Result-cases}
use task_maker_rust.Base.Tests.{nat_eq, Bool-cases, Option-cases, if_ind}
use task_maker_rust.Base.HashMap
use task_maker_rust.Base.HashMap.{HashMap, contains_key}
use task_maker_rust.Store.Index.{FileStoreKey, FileStoreIndexItem, StoreError, add, need_flush}
use task_maker_rust.Store.Handles.{FileStoreHandle, new_handle, drop_handle}
use task_maker_rust.Store.Flushing.{flush-bound}
use task_maker_rust.Store.Disk.{
  FileStore, Io, Stored, maybe_flush, give_up, save_index, index_file, write_file, store, get,
  concat,
}
use task_maker_rust.Store.Summed.{
  IsSummed, touch-IsSummed, add-IsSummed, flush-fine, maybe_flush-IsSummed,
}

index-give_up :
    (handle : FileStoreHandle) (e : StoreError) (s : FileStore)
    → (give_up handle e s).0.index ≡ s.index
unfolding give_up
index-give_up handle e s = elim (Option-cases (drop_handle handle s.locked_files)) [
  | inl broken ↦ ground (arith, broken)
  | inr (locked, fine) ↦ ground (arith, fine)
]

abbrev Sums : Stored → Type 0
Sums r = IsSummed r.0.index

give_up-Sums :
    (handle : FileStoreHandle) (e : StoreError) (s : FileStore)
    → IsSummed s.index
    → Sums (give_up handle e s)
give_up-Sums handle e s h = rw (index-give_up handle e s) h

save_index-Sums :
    (io : Io) (handle : FileStoreHandle) (r : FileStore × Option StoreError)
    → IsSummed r.0.index
    → Sums (save_index io handle r)
unfolding save_index
save_index-Sums io handle (s, some e) h = give_up-Sums handle e s h
save_index-Sums io handle (s, none) h =
    if_ind Sums io.store_index (λ _. h) (λ _. give_up-Sums handle _ s h)

index_file-Sums :
    (io : Io) (now : ℕ) (handle : FileStoreHandle) (len : ℕ) (s : FileStore)
    → ((k : FileStoreKey) → io.base_valid k ≡ true)
    → s.index.total_size + len < 2 ^ 64
    → IsSummed s.index
    → Sums (index_file io now handle len s)
unfolding index_file
index_file-Sums io now handle len s valid fits h =
    elim (Result-cases (add now handle.key (if io.read_metadata then some len else none) s.index)) [
      | inr (e, failed) ↦ rw (failed, index_file) (give_up-Sums handle e s h)
      | inl (index, added) ↦
          rw (added, index_file)
            (save_index-Sums io handle (maybe_flush io (record s { index = index })) (
              maybe_flush-IsSummed io (record s { index = index }) valid
                (add-IsSummed now handle.key io.read_metadata len s.index index added fits h)))
    ]

write_file-Sums :
    (io : Io) (now : ℕ) (handle : FileStoreHandle) (bytes : List ℕ) (s : FileStore)
    → ((k : FileStoreKey) → io.base_valid k ≡ true)
    → s.index.total_size + length bytes < 2 ^ 64
    → IsSummed s.index
    → Sums (write_file io now handle bytes s)
unfolding write_file
write_file-Sums io now handle bytes s valid fits h =
    if_ind Sums (not io.create_dir) (λ _. early _)
      λ _.
        if_ind Sums (not io.create_temp) (λ _. early _)
          λ _.
            if_ind Sums (not io.write) (λ _. early _)
              λ _.
                if_ind Sums (not io.rename) (λ _. early _)
                  λ _.
                    if_ind Sums (not io.mark_readonly) (λ _. give_up-Sums handle _ _ h)
                      λ _. index_file-Sums io now handle (length bytes) _ valid fits h
  where
    early : (e : StoreError) → Sums (give_up handle e s)
    early e = give_up-Sums handle e s h

-- Where the total of the index is the sum of the sizes, fits a `u64`, and no key stands twice, so
-- it is after `store`, successful or not, after `get` and after `maybe_flush`, as long as the
-- total with the new content fits a `u64` and the base path can be resolved.
pub store-IsSummed :
    (io : Io) (now : ℕ) (key : FileStoreKey) (content : List (List ℕ)) (s : FileStore)
    → ((k : FileStoreKey) → io.base_valid k ≡ true)
    → s.index.total_size + length (concat content) < 2 ^ 64
    → IsSummed s.index
    → IsSummed (store io now key content s).0.index
      × IsSummed (get now key s).0.index
      × IsSummed (maybe_flush io s).0.index
unfolding store get new_handle
store-IsSummed io now key content s valid fits h = (
  if_ind Sums (contains_key key s.disk) (λ _. h)
      (λ _.
        write_file-Sums io now (record { key = key }) (concat content)
          (record s { locked_files = (new_handle key s.locked_files).1 }) valid fits h),
  if_ind (λ (r : FileStore × Option FileStoreHandle). IsSummed r.0.index) (contains_key key s.disk)
      (λ _. touch-IsSummed now key s.index h) (λ _. h),
  maybe_flush-IsSummed io s valid h,
)

-- Where the total of the index is the sum of the sizes and the base path can be resolved, after
-- `maybe_flush` the total is below the maximum, or at most the target of a flush, or every file in
-- the index is in use.
pub maybe_flush-bound :
    (io : Io) (s : FileStore)
    → IsSummed s.index
    → ((k : FileStoreKey) → io.base_valid k ≡ true)
    → ((maybe_flush io s).0.index.total_size < s.max_store_size)
      ⊎ ((maybe_flush io s).0.index.total_size ≤ s.min_store_size)
      ⊎ ((k : FileStoreKey) (item : FileStoreIndexItem)
          → HashMap.get k (maybe_flush io s).0.index.known_files ≡ some item
          → contains_key k s.locked_files.ref_counts ≡ true)
unfolding maybe_flush need_flush
maybe_flush-bound io s h valid = elim (Bool-cases (leb s.max_store_size s.index.total_size)) [
  | inr room ↦ rw room (inl (ground (arith, room)))
  | inl full ↦ rw full (
      inr (
        flush-bound io.base_valid s.locked_files.ref_counts s.min_store_size s.index h.2
          (flush-fine io s valid)))
]

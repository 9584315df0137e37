-- ===== src/Store/Disk.antt =====
-- `FileStore` of lib.rs: `store`, `get`, `maybe_flush` and `drop`. The state has the files on disk
-- under their keys, a file being its bytes; the operations are run one after the other, as the
-- locks make them. INTEGRITY_CHECKS_ENABLED is false.
use task_maker_rust.Base.{ℕ, Bool, not, Option, none, some, List, [], ◌∷◌, ◌++◌, if◌then◌else◌}
use task_maker_rust.Base.Tests.{nat_eq}
use task_maker_rust.Base.Lists.{length}
use task_maker_rust.Base.Results.{Result, ok, err}
use task_maker_rust.Base.HashMap
use task_maker_rust.Base.HashMap.{HashMap, contains_key}
use task_maker_rust.Store.Index.{
  FileStoreKey, FileStoreIndex, StoreError, cannot_create_dir, cannot_create_temp, write_failed,
  rename_failed, readonly_failed, index_not_stored, ref_counts_broken, touch, add, need_flush,
  flush,
}
use task_maker_rust.Store.Handles.{LockedFiles, FileStoreHandle, new_handle, drop_handle}

pub record FileStore : Type 0 where
  pub locked_files : LockedFiles
  pub index : FileStoreIndex
  pub max_store_size : ℕ
  pub min_store_size : ℕ
  pub disk : HashMap FileStoreKey (List ℕ)

-- Which calls to the file system succeed while an operation runs.
pub record Io : Type 0 where
  pub create_dir : Bool
  pub create_temp : Bool
  pub write : Bool
  pub rename : Bool
  pub mark_readonly : Bool
  pub read_metadata : Bool
  pub store_index : Bool
  pub remove_file : FileStoreKey → Bool
  pub base_valid : FileStoreKey → Bool

-- `FileStore::remove_file` on each of the files: one that cannot be removed stays, with a warning.
unfoldable pub remove_files :
    (FileStoreKey → Bool)
    → List FileStoreKey
    → HashMap FileStoreKey (List ℕ)
    → HashMap FileStoreKey (List ℕ)
unfolding HashMap.remove
remove_files can_remove [] disk = disk
remove_files can_remove (key ∷ rest) disk =
    remove_files can_remove rest (if can_remove key then HashMap.remove key disk else disk)

unfoldable pub maybe_flush : Io → FileStore → FileStore × Option StoreError
unfolding need_flush flush remove_files
maybe_flush io s =
    let (index, removed, error) =
      flush io.base_valid s.locked_files.ref_counts s.min_store_size s.index in
    if need_flush s.max_store_size s.index
    then (record s { index = index; disk = remove_files io.remove_file removed s.disk }, error)
    else (s, none)

-- `drop` of the store only warns of an error.
unfoldable pub drop_store : Io → FileStore → FileStore
unfolding maybe_flush
drop_store io s = (maybe_flush io s).0

abbrev pub Stored : Type 0
Stored = FileStore × Result StoreError FileStoreHandle

-- An early return, which drops the handle.
unfoldable pub give_up : FileStoreHandle → StoreError → FileStore → Stored
unfolding drop_handle
give_up handle error s = elim (drop_handle handle s.locked_files) [
  | none ↦ (s, err ref_counts_broken)
  | some locked ↦ (record s { locked_files = locked }, err error)
]

-- The bytes of an iterator over the content.
unfoldable pub concat : List (List ℕ) → List ℕ
concat [] = []
concat (chunk ∷ rest) = chunk ++ concat rest

-- The end of `store`, after the flush.
unfoldable pub save_index : Io → FileStoreHandle → FileStore × Option StoreError → Stored
unfolding give_up
save_index io handle (s, some error) = give_up handle error s
save_index io handle (s, none) =
    if io.store_index then (s, ok handle) else give_up handle index_not_stored s

-- The part of `store` under the lock of the index.
unfoldable pub index_file : Io → ℕ → FileStoreHandle → ℕ → FileStore → Stored
unfolding add maybe_flush give_up save_index
index_file io now handle len s =
    elim (add now handle.key (if io.read_metadata then some len else none) s.index) [
      | err error ↦ give_up handle error s
      | ok index ↦ save_index io handle (maybe_flush io (record s { index = index }))
    ]

-- The part of `store` that writes a file that is not there.
unfoldable pub write_file : Io → ℕ → FileStoreHandle → List ℕ → FileStore → Stored
unfolding HashMap.insert give_up index_file
write_file io now handle bytes s =
    if not io.create_dir
    then give_up handle cannot_create_dir s
    else if not io.create_temp
    then give_up handle cannot_create_temp s
    else if not io.write
    then give_up handle write_failed s
    else if not io.rename
    then give_up handle rename_failed s
    else let written = record s { disk = HashMap.insert handle.key bytes s.disk } in
      if not io.mark_readonly
      then give_up handle readonly_failed written
      else index_file io now handle (length bytes) written

unfoldable pub store : Io → ℕ → FileStoreKey → List (List ℕ) → FileStore → Stored
unfolding HashMap.get new_handle write_file concat
store io now key content s =
    let (handle, locked) = new_handle key s.locked_files in
    let locked_store = record s { locked_files = locked } in
    if contains_key key s.disk
    then (locked_store, ok handle)
    else write_file io now handle (concat content) locked_store

unfoldable pub get : ℕ → FileStoreKey → FileStore → FileStore × Option FileStoreHandle
unfolding HashMap.get touch new_handle
get now key s =
    let (handle, locked) = new_handle key s.locked_files in
    if contains_key key s.disk
    then (record s { index = touch now key s.index; locked_files = locked }, some handle)
    else (s, none)

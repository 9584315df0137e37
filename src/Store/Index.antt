-- ===== src/Store/Index.antt =====
-- `FileStoreIndex` of index.rs. A key is a hash of 32 bytes; the model has the number that they
-- write, which is ordered as they are. The clock is the argument `now`, and the answers of the
-- file system are arguments. Loading and saving the index is left out.
use task_maker_rust.Base.{
  ℕ, zero, suc, Bool, true, false, Option, none, some, List, [], ◌∷◌, ◌++◌, if◌then◌else◌, ltb, leb,
}
use task_maker_rust.Base.Tests.{nat_eq}
use task_maker_rust.Base.Lists.{length}
use task_maker_rust.Base.Results.{Result, ok, err}
use task_maker_rust.Base.Words.{add64, sub64}
use task_maker_rust.Base.HashMap
use task_maker_rust.Base.HashMap.{HashMap, contains_key}

abbrev pub FileStoreKey : Type 0
FileStoreKey = ℕ

pub record FileStoreIndexItem : Type 0 where
  pub size : ℕ
  pub last_access : ℕ

pub record FileStoreIndex : Type 0 where
  pub total_size : ℕ
  pub known_files : HashMap FileStoreKey FileStoreIndexItem

pub data StoreError : Type 0 where
  no_metadata invalid_base_path out_of_fuel : StoreError
  cannot_create_dir cannot_create_temp write_failed rename_failed : StoreError
  readonly_failed index_not_stored ref_counts_broken : StoreError

unfoldable pub new_index : FileStoreIndex
new_index = record { total_size = 0; known_files = [] }

unfoldable pub touch : ℕ → FileStoreKey → FileStoreIndex → FileStoreIndex
unfolding HashMap.get HashMap.insert
touch now key index = elim (HashMap.get key index.known_files) [
  | none ↦ index
  | some file ↦ record index {
    known_files = HashMap.insert key (record file { last_access = now }) index.known_files;
  }
]

-- `metadata` is the length of the file at the path, where it can be read.
unfoldable pub add : ℕ → FileStoreKey → Option ℕ → FileStoreIndex → Result StoreError FileStoreIndex
unfolding HashMap.get HashMap.insert add64
add now key metadata index = elim (HashMap.get key index.known_files) [
  | some file ↦ ok (record index {
    known_files = HashMap.insert key (record file { last_access = now }) index.known_files;
  })
  | none ↦ elim metadata [
    | none ↦ err no_metadata
    | some len ↦ ok (record {
      total_size = add64 index.total_size len;
      known_files = HashMap.insert key (record { size = len; last_access = now }) index.known_files;
    })
  ]
]

unfoldable pub need_flush : ℕ → FileStoreIndex → Bool
need_flush size_limit index = leb size_limit index.total_size

abbrev pub Entry : Type 0
Entry = FileStoreKey × FileStoreIndexItem

-- The order of the queue: by the time of the last access, then by the key.
unfoldable pub older : Entry → Entry → Bool
older a b =
    if ltb a.1.last_access b.1.last_access
    then true
    else if ltb b.1.last_access a.1.last_access
    then false
    else ltb a.0 b.0

-- `BinaryHeap::pop`: a greatest entry and the rest.
unfoldable pub pop_newest : Entry → List Entry → Entry × List Entry
pop_newest x [] = (x, [])
pop_newest x (y ∷ ys) =
    let (top, rest) = pop_newest (if older x y then y else x) ys in
    (top, (if older x y then x else y) ∷ rest)

unfoldable pub pop_entry : List Entry → Option (Entry × List Entry)
unfolding pop_newest
pop_entry [] = none
pop_entry (x ∷ xs) = some (pop_newest x xs)

-- The variables of the loop of `flush`, with the files that it has asked to remove.
pub record Flush : Type 0 where
  pub total_size : ℕ
  pub queue : List Entry
  pub surviving : List Entry
  pub removed_files : List FileStoreKey

-- What is left of the variables at the end, and whether an error ended the loop.
abbrev pub Flushed : Type 0
Flushed = Flush × Option StoreError

-- The part of the loop that removes a file. Directories that become empty are left out.
unfoldable pub remove_entry : Entry → List Entry → Flush → Flush
unfolding sub64
remove_entry (key, entry) rest f = record f {
  total_size = sub64 f.total_size entry.size;
  queue = rest;
  removed_files = key ∷ f.removed_files;
}

-- The loop of `flush`. `base_valid` says whether the base path can still be resolved after the
-- removal of a file.
unfoldable pub flush_loop :
    {V : Type 0} → ℕ → (FileStoreKey → Bool) → HashMap FileStoreKey V → ℕ → Flush → Flushed
unfolding HashMap.get pop_entry remove_entry
flush_loop zero base_valid ref_counts target f =
    if ltb target f.total_size then (f, some out_of_fuel) else (f, none)
flush_loop (suc fuel) base_valid ref_counts target f =
    if ltb target f.total_size
    then elim (pop_entry f.queue) [
      | none ↦ (f, none)
      | some ((key, entry), rest) ↦
          let kept =
            flush_loop fuel base_valid ref_counts target
              (record f { queue = rest; surviving = f.surviving ++ (key, entry) ∷ [] }) in
          let removed =
            flush_loop fuel base_valid ref_counts target (remove_entry (key, entry) rest f) in
          if contains_key key ref_counts
          then kept
          else if base_valid key
          then removed
          else (remove_entry (key, entry) rest f, some invalid_base_path)
    ]
    else (f, none)

unfoldable pub insert_all :
    List Entry → HashMap FileStoreKey FileStoreIndexItem → HashMap FileStoreKey FileStoreIndexItem
unfolding HashMap.insert
insert_all [] m = m
insert_all ((key, entry) ∷ rest) m = insert_all rest (HashMap.insert key entry m)

abbrev pub start : FileStoreIndex → Flush
start index = record {
  total_size = index.total_size;
  queue = index.known_files;
  surviving = [];
  removed_files = [];
}

-- After an error the drained entries are lost.
unfoldable pub finish : Flushed → FileStoreIndex
unfolding insert_all
finish (f, none) = record {
  total_size = f.total_size;
  known_files = insert_all f.queue (insert_all f.surviving []);
}
finish (f, some e) = record { total_size = f.total_size; known_files = [] }

-- The index afterwards, the files that were to be removed, and the error if there was one.
unfoldable pub flush :
    {V : Type 0}
    → (FileStoreKey → Bool)
    → HashMap FileStoreKey V
    → ℕ
    → FileStoreIndex
    → FileStoreIndex × List FileStoreKey × Option StoreError
flush base_valid ref_counts target index =
    let f =
      flush_loop (suc (length index.known_files)) base_valid ref_counts target (start index) in
    (finish f, f.0.removed_files, f.1)

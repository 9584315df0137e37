-- ===== src/Store/Storing.antt =====
-- `store` of lib.rs: how it ends.
use task_maker_rust.Base.{
  ℕ, ◌≤◌, ◌≡◌, ◌≢◌, refl, ap, sym, ◌∙◌, subst, Bool, true, false, not, Option, none, some, List, [],
  ◌∷◌, arith, inl, inr, if◌then◌else◌,
}
use task_maker_rust.Base.Counts.{occurrences}
use task_maker_rust.Base.Lists.{length}
use task_maker_rust.Base.Results.{ok, err, Result-cases}
use task_maker_rust.Base.Tests.{nat_eq, nat_beq_iff, Bool-cases, if_ind}
use task_maker_rust.Base.HashMap
use task_maker_rust.Base.HashSet
use task_maker_rust.Base.HashMap.{HashMap, contains_key, get-insert, get-remove, get-insert_self}
use task_maker_rust.Store.Index.{
  FileStoreKey, FileStoreIndex, StoreError, ref_counts_broken, add, need_flush,
}
use task_maker_rust.Store.Handles.{LockedFiles, FileStoreHandle, drop_handle}
use task_maker_rust.Store.Counting.{Live, Counts, drop_one, drop_handle-Counts, Counts-locked}
use task_maker_rust.Store.Flushing.{flush-removed, flush-ends}
use task_maker_rust.Store.Disk.{
  FileStore, Io, Stored, remove_files, maybe_flush, give_up, save_index, index_file, write_file,
}

get-remove_files :
    (can_remove : FileStoreKey → Bool) (k : FileStoreKey) (removed : List FileStoreKey)
    (disk : HashMap FileStoreKey (List ℕ))
    → HashSet.contains k removed ≡ false
    → HashMap.get k (remove_files can_remove removed disk) ≡ HashMap.get k disk
unfolding remove_files HashSet.contains
get-remove_files can_remove k [] disk h = refl
get-remove_files can_remove k (j ∷ removed) disk h = ground (
  arith,
  h,
  nat_beq_iff j k,
  get-remove j k disk,
  get-remove_files can_remove k removed (if can_remove j then HashMap.remove j disk else disk),
)

pub get-maybe_flush :
    (io : Io) (k : FileStoreKey) (s : FileStore)
    → contains_key k s.locked_files.ref_counts ≡ true
    → HashMap.get k (maybe_flush io s).0.disk ≡ HashMap.get k s.disk
unfolding maybe_flush
get-maybe_flush io k s busy = elim (Bool-cases (need_flush s.max_store_size s.index)) [
  | inl full ↦ rw full (
      get-remove_files io.remove_file k _ s.disk
        (flush-removed io.base_valid s.locked_files.ref_counts s.min_store_size s.index k busy))
  | inr room ↦ rw room refl
]

pub maybe_flush-locked :
    (io : Io) (s : FileStore) → (maybe_flush io s).0.locked_files ≡ s.locked_files
unfolding maybe_flush
maybe_flush-locked io s = elim (Bool-cases (need_flush s.max_store_size s.index)) [
  | inl full ↦ rw full refl
  | inr room ↦ rw room refl
]

-- What `store` returns when `live` are the handles before it: a handle of the file, which is on
-- disk, or an error, which leaves the handles as they were.
abbrev pub Returns : List ℕ → Live → FileStoreKey → Stored → Type 0
Returns bytes live key (t, ok handle) =
    (handle.key ≡ key) × (HashMap.get key t.disk ≡ some bytes) × Counts t.locked_files (key ∷ live)
Returns bytes live key (t, err error) = (error ≢ ref_counts_broken) × Counts t.locked_files live

-- The files with handles are on disk as they were in `disk`.
abbrev pub Spares : HashMap FileStoreKey (List ℕ) → Live → FileStore → Type 0
Spares disk live t =
    (k : FileStoreKey) (bytes : List ℕ)
    → 1 ≤ occurrences k live
    → HashMap.get k disk ≡ some bytes
    → HashMap.get k t.disk ≡ some bytes

drop_one_head : (k : FileStoreKey) (live : Live) → drop_one k (k ∷ live) ≡ live
unfolding drop_one
drop_one_head k live = ground (arith, nat_beq_iff k k)

give_up-eq :
    (handle : FileStoreHandle) (error : StoreError) (s : FileStore) (after : LockedFiles)
    → drop_handle handle s.locked_files ≡ some after
    → give_up handle error s ≡ (record s { locked_files = after }, err error)
unfolding give_up
give_up-eq handle error s after h = ground (arith, h)

-- How `store` ends when the files on disk were `disk`.
abbrev pub Ends : HashMap FileStoreKey (List ℕ) → List ℕ → Live → FileStoreKey → Stored → Type 0
Ends disk bytes live key r = Returns bytes live key r × Spares disk (key ∷ live) r.0

first : (k : FileStoreKey) (live : Live) → 1 ≤ occurrences k (k ∷ live)
first k live = ground (arith, nat_beq_iff k k)

give_up-Ends :
    (disk : HashMap FileStoreKey (List ℕ)) (bytes : List ℕ) (live : Live) (handle : FileStoreHandle)
    (error : StoreError) (s : FileStore)
    → error ≢ ref_counts_broken
    → Counts s.locked_files (handle.key ∷ live)
    → Spares disk (handle.key ∷ live) s
    → Ends disk bytes live handle.key (give_up handle error s)
give_up-Ends disk bytes live handle error s ne h spares =
    let (after, e, counts) =
      drop_handle-Counts handle s.locked_files (handle.key ∷ live) h (first handle.key live) in
    rw (give_up-eq handle error s after e)
      ((ne, subst (Counts after) (drop_one_head handle.key live) counts), spares)

pub maybe_flush-Spares :
    (disk : HashMap FileStoreKey (List ℕ)) (live : Live) (io : Io) (s : FileStore)
    → Counts s.locked_files live
    → Spares disk live s
    → Spares disk live (maybe_flush io s).0
maybe_flush-Spares disk live io s h spares k bytes alive e =
    get-maybe_flush io k s (Counts-locked k s.locked_files live h alive) ∙ spares k bytes alive e

-- Errors of the index are no broken reference counts.
add-ne :
    (now : ℕ) (key : FileStoreKey) (metadata : Option ℕ) (index : FileStoreIndex)
    → add now key metadata index ≢ err ref_counts_broken
unfolding add
add-ne now key metadata index h = ground (arith, h)

maybe_flush-ne : (io : Io) (s : FileStore) → (maybe_flush io s).1 ≢ some ref_counts_broken
unfolding maybe_flush
maybe_flush-ne io s h = elim (Bool-cases (need_flush s.max_store_size s.index)) [
  | inl full ↦ elim (flush-ends io.base_valid s.locked_files.ref_counts s.min_store_size s.index) [
    | inl fine ↦ let broken = rw full at h in cc
    | inr bad ↦ let broken = rw full at h in let invalid = bad.0 in cc
  ]
  | inr room ↦ let broken = rw room at h in cc
]

save_index-Ends :
    (disk : HashMap FileStoreKey (List ℕ)) (bytes : List ℕ) (live : Live) (io : Io)
    (handle : FileStoreHandle) (r : FileStore × Option StoreError)
    → r.1 ≢ some ref_counts_broken
    → Counts r.0.locked_files (handle.key ∷ live)
    → Spares disk (handle.key ∷ live) r.0
    → HashMap.get handle.key r.0.disk ≡ some bytes
    → Ends disk bytes live handle.key (save_index io handle r)
unfolding save_index
save_index-Ends disk bytes live io handle (t, some error) ne h spares there =
    give_up-Ends disk bytes live handle error t (λ e. ne (ap some e)) h spares
save_index-Ends disk bytes live io handle (t, none) ne h spares there =
    elim (Bool-cases io.store_index) [
      | inl saved ↦ rw saved ((refl, there, h), spares)
      | inr failed ↦ rw failed (give_up-Ends disk bytes live handle _ t (λ e. cc) h spares)
    ]

index_file-Ends :
    (disk : HashMap FileStoreKey (List ℕ)) (bytes : List ℕ) (live : Live) (io : Io) (now : ℕ)
    (handle : FileStoreHandle) (len : ℕ) (s : FileStore)
    → Counts s.locked_files (handle.key ∷ live)
    → Spares disk (handle.key ∷ live) s
    → HashMap.get handle.key s.disk ≡ some bytes
    → Ends disk bytes live handle.key (index_file io now handle len s)
unfolding index_file
index_file-Ends disk bytes live io now handle len s h spares there =
    elim (Result-cases (add now handle.key (if io.read_metadata then some len else none) s.index)) [
      | inr (error, e) ↦
          rw (e, index_file)
            (give_up-Ends disk bytes live handle error s
              (λ same. add-ne now handle.key _ s.index (e ∙ ap err same)) h spares)
      | inl (index, e) ↦
          let t : FileStore = record s { index = index } in
          rw (e, index_file)
            (save_index-Ends disk bytes live io handle (maybe_flush io t) (maybe_flush-ne io t)
              (subst (λ l. Counts l (handle.key ∷ live)) (sym (maybe_flush-locked io t)) h)
              (maybe_flush-Spares disk (handle.key ∷ live) io t h spares)
              (get-maybe_flush io handle.key t (
                  Counts-locked handle.key t.locked_files (handle.key ∷ live) h
                    (first handle.key live))
                ∙ there))
    ]

insert-Spares :
    (live : Live) (key : FileStoreKey) (bytes : List ℕ) (s : FileStore)
    → contains_key key s.disk ≡ false
    → Spares s.disk live (record s { disk = HashMap.insert key bytes s.disk })
insert-Spares live key bytes s absent k old alive e =
    ground (arith, absent, e, get-insert key k bytes s.disk, nat_beq_iff key k)

pub write_file-Ends :
    (live : Live) (io : Io) (now : ℕ) (handle : FileStoreHandle) (bytes : List ℕ) (s : FileStore)
    → Counts s.locked_files (handle.key ∷ live)
    → contains_key handle.key s.disk ≡ false
    → Ends s.disk bytes live handle.key (write_file io now handle bytes s)
unfolding write_file
write_file-Ends live io now handle bytes s h absent =
    if_ind Good (not io.create_dir) (λ _. early _ (λ e. cc))
      λ _.
        if_ind Good (not io.create_temp) (λ _. early _ (λ e. cc))
          λ _.
            if_ind Good (not io.write) (λ _. early _ (λ e. cc))
              λ _.
                if_ind Good (not io.rename) (λ _. early _ (λ e. cc))
                  λ _.
                    if_ind Good (not io.mark_readonly)
                      (λ _. give_up-Ends s.disk bytes live handle _ _ (λ e. cc) h spares)
                      λ _.
                        index_file-Ends s.disk bytes live io now handle (length bytes) _ h spares
                          (get-insert_self handle.key bytes s.disk)
  where
    Good : Stored → Type 0
    Good = Ends s.disk bytes live handle.key

    early : (error : StoreError) → error ≢ ref_counts_broken → Good (give_up handle error s)
    early error ne = give_up-Ends s.disk bytes live handle error s ne h λ k old alive e. e

    spares :
        Spares s.disk
          (handle.key ∷ live)
          (record s { disk = HashMap.insert handle.key bytes s.disk })
    spares = insert-Spares (handle.key ∷ live) handle.key bytes s absent

-- ===== src/Store/Guarantee.antt =====
-- The operations of lib.rs in any order: the handles that are alive, and their files.
use task_maker_rust.Base.{ℕ, ◌≤◌, ◌≡◌, refl, sym, subst, Option, none, some, List, ◌∷◌, arith}
use task_maker_rust.Base.Counts.{occurrences}
use task_maker_rust.Base.Results.{ok, err}
use task_maker_rust.Base.Tests.{nat_eq, if_ind}
use task_maker_rust.Base.HashMap
use task_maker_rust.Base.HashMap.{HashMap, contains_key}
use task_maker_rust.Store.Index.{FileStoreKey, StoreError}
use task_maker_rust.Store.Handles.{LockedFiles, FileStoreHandle, new_handle}
use task_maker_rust.Store.Counting.{Live, Counts, HandleStep, HandleStep-Counts, count_up-Counts}
use task_maker_rust.Store.Storing.{
  Ends, Spares, write_file-Ends, maybe_flush-Spares, maybe_flush-locked,
}
use task_maker_rust.Store.Disk.{FileStore, Io, maybe_flush, store, get, concat}

-- What is on disk under the key after `store`: what was there, or the content.
abbrev pub old_or : Option (List ℕ) → List (List ℕ) → List ℕ
old_or (some old) content = old
old_or none content = concat content

store-Ends_at :
    (io : Io) (now : ℕ) (key : FileStoreKey) (content : List (List ℕ)) (s : FileStore) (live : Live)
    (old : Option (List ℕ))
    → HashMap.get key s.disk ≡ old
    → Counts s.locked_files live
    → Ends s.disk (old_or old content) live key (store io now key content s)
unfolding new_handle store
store-Ends_at io now key content s live none e h =
    rw (e, store)
      (write_file-Ends live io now (record { key = key }) (concat content) _
        (count_up-Counts key s.locked_files live h) (ground (arith, e)))
store-Ends_at io now key content s live (some old) e h =
    rw (e, store) ((refl, e, count_up-Counts key s.locked_files live h), λ k bytes alive e. e)

pub store-Ends :
    (io : Io) (now : ℕ) (key : FileStoreKey) (content : List (List ℕ)) (s : FileStore) (live : Live)
    → Counts s.locked_files live
    → Ends s.disk (old_or (HashMap.get key s.disk) content) live key (store io now key content s)
store-Ends io now key content s live h =
    store-Ends_at io now key content s live (HashMap.get key s.disk) refl h

-- What `get` returns.
abbrev pub Gets : HashMap FileStoreKey (List ℕ) → Live → FileStore × Option FileStoreHandle → Type 0
Gets disk live (t, some handle) = Counts t.locked_files (handle.key ∷ live) × (t.disk ≡ disk)
Gets disk live (t, none) = Counts t.locked_files live × (t.disk ≡ disk)

pub get-Gets :
    (now : ℕ) (key : FileStoreKey) (s : FileStore) (live : Live)
    → Counts s.locked_files live
    → Gets s.disk live (get now key s)
unfolding get new_handle
get-Gets now key s live h =
    if_ind (Gets s.disk live) (contains_key key s.disk)
      (λ there. (count_up-Counts key s.locked_files live h, refl)) (λ gone. (h, refl))

Spares-tail :
    (disk : HashMap FileStoreKey (List ℕ)) (key : FileStoreKey) (live : Live) (t : FileStore)
    → Spares disk (key ∷ live) t
    → Spares disk live t
Spares-tail disk key live t h k bytes alive = h k bytes (ground (arith, alive))

-- The operations on a store, with the handles that are alive before and after.
pub data Step : FileStore → Live → FileStore → Live → Type 0 where
  stored :
      (io : Io) (now : ℕ) (key : FileStoreKey) (content : List (List ℕ)) (s t : FileStore)
      (live : Live) (handle : FileStoreHandle)
      → store io now key content s ≡ (t, ok handle)
      → Step s live t (handle.key ∷ live)
  store_failed :
      (io : Io) (now : ℕ) (key : FileStoreKey) (content : List (List ℕ)) (s t : FileStore)
      (live : Live) (error : StoreError)
      → store io now key content s ≡ (t, err error)
      → Step s live t live
  found :
      (now : ℕ) (key : FileStoreKey) (s t : FileStore) (live : Live) (handle : FileStoreHandle)
      → get now key s ≡ (t, some handle)
      → Step s live t (handle.key ∷ live)
  not_found :
      (now : ℕ) (key : FileStoreKey) (s t : FileStore) (live : Live)
      → get now key s ≡ (t, none)
      → Step s live t live
  flushed : (io : Io) (s : FileStore) (live : Live) → Step s live (maybe_flush io s).0 live
  of_handle :
      (s : FileStore) (after : LockedFiles) (live live_after : Live)
      → HandleStep s.locked_files live after live_after
      → Step s live (record s { locked_files = after }) live_after

-- A step keeps the reference counts, and the files that have a handle at its start.
pub Step-keeps :
    {s t : FileStore} {live live_after : Live}
    → Step s live t live_after
    → Counts s.locked_files live
    → Counts t.locked_files live_after × Spares s.disk live t
Step-keeps (stored io now key content s t live handle e) h =
    let ends = subst (Ends s.disk _ live key) e (store-Ends io now key content s live h) in
    (
      subst (λ k. Counts t.locked_files (k ∷ live)) (sym ends.0.0) ends.0.2,
      Spares-tail s.disk key live t ends.1,
    )
Step-keeps (store_failed io now key content s t live error e) h =
    let ends = subst (Ends s.disk _ live key) e (store-Ends io now key content s live h) in
    (ends.0.1, Spares-tail s.disk key live t ends.1)
Step-keeps (found now key s t live handle e) h =
    let gets = subst (Gets s.disk live) e (get-Gets now key s live h) in
    (gets.0, λ k bytes alive there. rw gets.1 there)
Step-keeps (not_found now key s t live e) h =
    let gets = subst (Gets s.disk live) e (get-Gets now key s live h) in
    (gets.0, λ k bytes alive there. rw gets.1 there)
Step-keeps (flushed io s live) h = (
  subst (λ l. Counts l live) (sym (maybe_flush-locked io s)) h,
  maybe_flush-Spares s.disk live io s h λ k bytes alive e. e,
)
Step-keeps (of_handle s after live live_after step) h =
    (HandleStep-Counts step h, λ k bytes alive e. e)

-- Steps one after the other, with a handle of `k` at the start of each.
pub data Holding (k : FileStoreKey) : FileStore → Live → FileStore → Live → Type 0 where
  done : (s : FileStore) (live : Live) → Holding k s live s live
  step :
      {s t u : FileStore} {live live_t live_u : Live}
      → 1 ≤ occurrences k live
      → Step s live t live_t
      → Holding k t live_t u live_u
      → Holding k s live u live_u

-- Where the reference counts are those of the handles that are alive, a file on disk is there with
-- the same content after every sequence of `store`, `get`, `maybe_flush` and operations on
-- handles, failing ones included, that has a handle of its key at the start of each.
pub Holding-keeps :
    (k : FileStoreKey) (bytes : List ℕ) {s t : FileStore} {live live_after : Live}
    → Holding k s live t live_after
    → Counts s.locked_files live
    → HashMap.get k s.disk ≡ some bytes
    → HashMap.get k t.disk ≡ some bytes
Holding-keeps k bytes (done s live) h there = there
Holding-keeps k bytes (step alive one rest) h there =
    let (counts, spares) = Step-keeps one h in
    Holding-keeps k bytes rest counts (spares k bytes alive there)

get-present :
    (now : ℕ) (key : FileStoreKey) (bytes : List ℕ) (s : FileStore)
    → HashMap.get key s.disk ≡ some bytes
    → (get now key s).1 ≡ some (record { key = key })
unfolding get new_handle
get-present now key bytes s there = rw there refl

-- Where the reference counts are those of the handles that are alive, and `store` returns a handle
-- for a key that was not on disk, the file is on disk with all its content, and `get` finds it,
-- after every sequence of operations that has a handle of the key at the start of each.
pub get-store :
    (io : Io) (now later : ℕ) (key : FileStoreKey) (content : List (List ℕ)) (s t u : FileStore)
    (live live_after : Live) (handle : FileStoreHandle)
    → Counts s.locked_files live
    → HashMap.get key s.disk ≡ none
    → store io now key content s ≡ (t, ok handle)
    → Holding key t (handle.key ∷ live) u live_after
    → ((get later key u).1 ≡ some (record { key = key }))
      × (HashMap.get key u.disk ≡ some (concat content))
get-store io now later key content s t u live live_after handle h absent e holding =
    let ends =
      subst (Ends s.disk (concat content) live key) e
        (store-Ends_at io now key content s live none absent h) in
    let counts = subst (λ k. Counts t.locked_files (k ∷ live)) (sym ends.0.0) ends.0.2 in
    let there = Holding-keeps key (concat content) holding counts ends.0.1 in
    (get-present later key (concat content) u there, there)

-- ===== src/Store/Flushing.antt =====
-- What `flush` of index.rs does to the index.
use task_maker_rust.Base.{
  ℕ, suc, ◌≤◌, ◌≡◌, ◌⊎◌, refl, ap, Bool, true, false, Option, none, some, arith, inl, inr,
}
use task_maker_rust.Base.Lists.{length}
use task_maker_rust.Base.Tests.{nat_eq, nat_beq_iff, Bool-cases}
use task_maker_rust.Base.HashMap
use task_maker_rust.Base.HashSet
use task_maker_rust.Base.HashMap.{HashMap, contains_key}
use task_maker_rust.Store.Index.{
  FileStoreKey, FileStoreIndexItem, FileStoreIndex, Entry, Flushed, StoreError, invalid_base_path,
  start, flush,
}
use task_maker_rust.Store.Weights.{
  weight, size_of, has_key, is_entry, AreDistinct, get-of_entry, entry-of_get,
}
use task_maker_rust.Store.Loop.{flush_loop-ends}
use task_maker_rust.Store.Held.{
  held, weight-finish, total-finish, weight-le, Exceeds, loop, held-loop-le, held-loop-used,
  loop-Exceeds, unused, loop-surviving, loop-removed_files,
}

module _ {V : Type 0} (base_valid : FileStoreKey → Bool) (ref_counts : HashMap FileStoreKey V)
    (target : ℕ) (index : FileStoreIndex) where
  abbrev pub loop_end : Flushed
  loop_end = loop base_valid ref_counts target (suc (length index.known_files)) (start index)

  abbrev pub flushed : FileStoreIndex
  flushed = (flush base_valid ref_counts target index).0

  abbrev pub error : Option StoreError
  error = (flush base_valid ref_counts target index).2

  pub weight-flushed :
      (w : Entry → ℕ)
      → AreDistinct index.known_files
      → error ≡ none
      → weight w flushed.known_files ≡ held w loop_end.0
  unfolding flush
  weight-flushed w d fine =
      weight-finish w loop_end
        (λ k. omega (
          arith,
          d k,
          held-loop-le base_valid ref_counts target (has_key k) (suc (length index.known_files))
              (start index),
        ))
        fine

  pub flush-Exceeds :
      (slack : ℕ)
      → AreDistinct index.known_files
      → Exceeds slack index.total_size (weight size_of index.known_files)
      → error ≡ none
      → Exceeds slack flushed.total_size (weight size_of flushed.known_files)
  unfolding flush
  flush-Exceeds slack d h fine = omega (
    arith,
    loop-Exceeds base_valid ref_counts target slack (suc (length index.known_files)) (start index)
        (omega (arith, h.0), h.1),
    weight-flushed size_of d fine,
    total-finish loop_end,
  )

  pub flush-AreDistinct :
      AreDistinct index.known_files → error ≡ none → AreDistinct flushed.known_files
  flush-AreDistinct d fine k = omega (
    arith,
    d k,
    weight-flushed (has_key k) d fine,
    held-loop-le base_valid ref_counts target (has_key k) (suc (length index.known_files))
        (start index),
  )

  -- The three statements of an index that was flushed without an error.
  pub flush-subset :
      (k : FileStoreKey) (item : FileStoreIndexItem)
      → AreDistinct index.known_files
      → error ≡ none
      → HashMap.get k flushed.known_files ≡ some item
      → HashMap.get k index.known_files ≡ some item
  flush-subset k item d fine h = get-of_entry k item index.known_files d (
      omega (
        arith,
        entry-of_get k item flushed.known_files h,
        weight-flushed (is_entry k item) d fine,
        held-loop-le base_valid ref_counts target (is_entry k item) (suc (length index.known_files))
            (start index),
      ))

  pub flush-used :
      (k : FileStoreKey) (item : FileStoreIndexItem)
      → AreDistinct index.known_files
      → error ≡ none
      → contains_key k ref_counts ≡ true
      → HashMap.get k index.known_files ≡ some item
      → HashMap.get k flushed.known_files ≡ some item
  flush-used k item d fine busy h =
      get-of_entry k item flushed.known_files (flush-AreDistinct d fine) (
        omega (
          arith,
          entry-of_get k item index.known_files h,
          weight-flushed (is_entry k item) d fine,
          held-loop-used base_valid ref_counts target (is_entry k item)
              (λ e free. ground (arith, busy, free, nat_beq_iff e.0 k))
              (suc (length index.known_files)) (start index),
        ))

  pub flush-removed :
      (k : FileStoreKey)
      → contains_key k ref_counts ≡ true
      → HashSet.contains k (flush base_valid ref_counts target index).1 ≡ false
  unfolding flush HashSet.contains
  flush-removed k busy =
      loop-removed_files base_valid ref_counts target k busy (suc (length index.known_files))
        (start index) refl

  pub flush-bound :
      AreDistinct index.known_files
      → error ≡ none
      → (flushed.total_size ≤ target)
        ⊎ ((k : FileStoreKey) (item : FileStoreIndexItem)
            → HashMap.get k flushed.known_files ≡ some item
            → contains_key k ref_counts ≡ true)
  unfolding flush
  flush-bound d fine =
      elim (flush_loop-ends base_valid ref_counts target (suc (length index.known_files))
        (start index) (omega arith)) [
          | inl failed ↦ cc
          | inr (fine2, inl fits) ↦ inl (omega (arith, fits, total-finish loop_end))
          | inr (fine2, inr empty) ↦ inr λ k item h. elim (Bool-cases (contains_key k ref_counts)) [
            | inl busy ↦ busy
            | inr free ↦ absurd (
                omega (
                  arith,
                  entry-of_get k item flushed.known_files h,
                  weight-flushed (is_entry k item) d fine,
                  ap (weight (is_entry k item)) empty,
                  weight-le (is_entry k item) (unused base_valid ref_counts target)
                      (λ e. ground (arith, free, nat_beq_iff e.0 k)) loop_end.0.surviving,
                  loop-surviving base_valid ref_counts target (suc (length index.known_files))
                      (start index) refl,
                ))
          ]
        ]

  pub flush-ends :
      (error ≡ none)
      ⊎ ((error ≡ some invalid_base_path) × ((k : FileStoreKey) × (base_valid k ≡ false)))
  unfolding flush
  flush-ends =
      elim (flush_loop-ends base_valid ref_counts target (suc (length index.known_files))
        (start index) (omega arith)) [ inl failed ↦ inr failed | inr (fine, how) ↦ inl fine ]

  -- A `flush` without an error of an index that has no key twice changes and adds no entry, and
  -- keeps that of each file in use.
  pub flush-keeps :
      AreDistinct index.known_files
      → error ≡ none
      → (k : FileStoreKey) (item : FileStoreIndexItem)
      → (HashMap.get k flushed.known_files ≡ some item
          → HashMap.get k index.known_files ≡ some item)
        × (contains_key k ref_counts ≡ true
            → HashMap.get k index.known_files ≡ some item
            → HashMap.get k flushed.known_files ≡ some item)
  flush-keeps d fine k item = (flush-subset k item d fine, flush-used k item d fine)

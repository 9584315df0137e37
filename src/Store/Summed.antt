-- ===== src/Store/Summed.antt =====
-- The total of the index of files.
use task_maker_rust.Base.{
  ℕ, ◌+◌, ◌^◌, ◌<◌, ◌≡◌, refl, ◌∙◌, subst, Bool, true, Option, none, some, arith, inl, inr,
  if◌then◌else◌,
}
use task_maker_rust.Base.Results.{ok, ok-injective}
use task_maker_rust.Base.Tests.{nat_eq, nat_beq_iff, Bool-cases, Option-cases, if_ind}
use task_maker_rust.Base.HashMap
use task_maker_rust.Base.Words.{add64}
use task_maker_rust.Base.HashMap.{HashMap, contains_key}
use task_maker_rust.Store.Index.{
  FileStoreKey, FileStoreIndexItem, FileStoreIndex, StoreError, touch, add, need_flush,
}
use task_maker_rust.Store.Weights.{
  weight, size_of, has_key, AreDistinct, weight-insert, weight-insert_present,
  copies-insert_present, copies-eq_zero,
}
use task_maker_rust.Store.Flushing.{error, flush-Exceeds, flush-AreDistinct, flush-ends}
use task_maker_rust.Store.Disk.{FileStore, Io, maybe_flush}

-- The total is the sum of the sizes, fits a `u64`, and no key stands twice.
abbrev pub IsSummed : FileStoreIndex → Type 0
IsSummed index =
    (weight size_of index.known_files ≡ index.total_size)
    × (index.total_size < 2 ^ 64)
    × AreDistinct index.known_files

refresh-IsSummed :
    (now : ℕ) (k : FileStoreKey) (file : FileStoreIndexItem) (index : FileStoreIndex)
    → HashMap.get k index.known_files ≡ some file
    → IsSummed index
    → IsSummed (record index {
      known_files = HashMap.insert k (record file { last_access = now }) index.known_files;
    })
refresh-IsSummed now k file index e h = (
  weight-insert_present k file (record file { last_access = now }) index.known_files e refl ∙ h.0,
  h.1,
  λ j. omega (
    arith,
    h.2 j,
    copies-insert_present k j file (record file { last_access = now }) index.known_files e,
  ),
)

pub touch-IsSummed :
    (now : ℕ) (k : FileStoreKey) (index : FileStoreIndex)
    → IsSummed index
    → IsSummed (touch now k index)
unfolding touch
touch-IsSummed now k index h = elim (Option-cases (HashMap.get k index.known_files)) [
  | inl absent ↦ rw (absent, touch) h
  | inr (file, e) ↦ rw (e, touch) (refresh-IsSummed now k file index e h)
]

insert-IsSummed :
    (now : ℕ) (k : FileStoreKey) (len : ℕ) (index : FileStoreIndex)
    → HashMap.get k index.known_files ≡ none
    → index.total_size + len < 2 ^ 64
    → IsSummed index
    → IsSummed (record {
      total_size = add64 index.total_size len;
      known_files = HashMap.insert k (record { size = len; last_access = now }) index.known_files;
    })
unfolding add64
insert-IsSummed now k len index absent fits h = (
  omega (arith, h.0, new size_of, fits),
  omega (arith, fits),
  λ j.
      ground
        (arith, h.2 j, new (has_key j), nat_beq_iff k j, copies-eq_zero k index.known_files absent),
)
  where
    new :
        (w : FileStoreKey × FileStoreIndexItem → ℕ)
        → weight w (HashMap.insert k (record { size = len; last_access = now }) index.known_files)
          ≡ w (k, record { size = len; last_access = now }) + weight w index.known_files
    new w = weight-insert w k _ index.known_files (copies-eq_zero k index.known_files absent)

pub add-IsSummed :
    (now : ℕ) (k : FileStoreKey) (known : Bool) (len : ℕ) (index after : FileStoreIndex)
    → add now k (if known then some len else none) index ≡ ok after
    → index.total_size + len < 2 ^ 64
    → IsSummed index
    → IsSummed after
unfolding add
add-IsSummed now k known len index after e fits h =
    elim (Option-cases (HashMap.get k index.known_files)) [
      | inr (file, there) ↦
          subst IsSummed (ok-injective (rw (there, add) at e))
            (refresh-IsSummed now k file index there h)
      | inl absent ↦ elim (Bool-cases known) [
        | inl readable ↦
            subst IsSummed (ok-injective (rw (absent, readable, add) at e))
              (insert-IsSummed now k len index absent fits h)
        | inr unreadable ↦ let failed = rw (absent, unreadable, add) at e in cc
      ]
    ]

-- Where the base path is there, a flush has no error.
pub flush-fine :
    (io : Io) (s : FileStore)
    → ((k : FileStoreKey) → io.base_valid k ≡ true)
    → error io.base_valid s.locked_files.ref_counts s.min_store_size s.index ≡ none
flush-fine io s valid =
    elim (flush-ends io.base_valid s.locked_files.ref_counts s.min_store_size s.index) [
      | inl fine ↦ fine
      | inr (bad, (k, gone)) ↦ let there = valid k in cc
    ]

pub maybe_flush-IsSummed :
    (io : Io) (s : FileStore)
    → ((k : FileStoreKey) → io.base_valid k ≡ true)
    → IsSummed s.index
    → IsSummed (maybe_flush io s).0.index
unfolding maybe_flush
maybe_flush-IsSummed io s valid h =
    if_ind (λ (r : FileStore × Option StoreError). IsSummed r.0.index)
      (need_flush s.max_store_size s.index)
      (λ full.
        let fine = flush-fine io s valid in
        let sums =
          flush-Exceeds io.base_valid s.locked_files.ref_counts s.min_store_size s.index 0 h.2
            (omega (arith, h.0), h.1) fine in
        (
          omega (arith, sums.0),
          sums.1,
          flush-AreDistinct io.base_valid s.locked_files.ref_counts s.min_store_size s.index h.2
              fine,
        ))
      (λ room. h)

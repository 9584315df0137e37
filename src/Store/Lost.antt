-- ===== src/Store/Lost.antt =====
-- What an error costs `flush` of index.rs.
use task_maker_rust.Base.{
  ℕ, suc, ◌≤◌, ◌≡◌, refl, Bool, true, none, some, List, [], ◌∷◌, arith, if◌then◌else◌,
}
use task_maker_rust.Base.Lists.{length}
use task_maker_rust.Base.Tests.{nat_eq, nat_beq, nat_beq_iff}
use task_maker_rust.Base.HashMap
use task_maker_rust.Base.HashMap.{HashMap, contains_key}
use task_maker_rust.Store.Index.{Entry}
use task_maker_rust.Store.Index.{
  FileStoreKey, FileStoreIndexItem, FileStoreIndex, StoreError, flush, finish, Flushed, start,
}
use task_maker_rust.Store.Weights.{weight, size_of, is_entry, entry-of_get}
use task_maker_rust.Store.Held.{loop-Exceeds, held-loop-used}
use task_maker_rust.Store.Flushing.{error, loop_end}
use task_maker_rust.Store.Summed.{IsSummed}
use task_maker_rust.Store.Held.{weight-le, total-finish}

finish_failed : (r : Flushed) (e : StoreError) → r.1 ≡ some e → (finish r).known_files ≡ []
unfolding finish
finish_failed (f, none) e h = cc
finish_failed (f, some e) d h = refl

-- The size, of one entry only.
abbrev sized : FileStoreKey → FileStoreIndexItem → Entry → ℕ
sized k item e = if nat_beq (is_entry k item e) 1 then size_of e else 0

sized-le :
    (k : FileStoreKey) (item : FileStoreIndexItem) (es : List Entry)
    → 1 ≤ weight (is_entry k item) es
    → item.size ≤ weight (sized k item) es
sized-le k item [] h = absurd (omega arith)
sized-le k item (e ∷ es) h = ground (arith, sized-le k item es)

-- Where a `flush` ends with an error, the index is empty, though its total is at least the size of
-- each file in use that it had, where the total was the sum of the sizes.
pub flush-error_loses :
    {V : Type 0} (base_valid : FileStoreKey → Bool) (ref_counts : HashMap FileStoreKey V)
    (target : ℕ) (index : FileStoreIndex) (e : StoreError)
    → IsSummed index
    → error base_valid ref_counts target index ≡ some e
    → (k : FileStoreKey) (item : FileStoreIndexItem) → contains_key k ref_counts ≡ true
    → HashMap.get k index.known_files ≡ some item
    → ((flush base_valid ref_counts target index).0.known_files ≡ [])
      × (item.size ≤ (flush base_valid ref_counts target index).0.total_size)
unfolding flush
flush-error_loses base_valid ref_counts target index e h failed k item busy known =
    let f = loop_end base_valid ref_counts target index in
    (
      finish_failed f e failed,
      omega (
        arith,
        total-finish f,
        sized-le k item index.known_files (entry-of_get k item index.known_files known),
        held-loop-used base_valid ref_counts target (sized k item)
            (λ e free. ground (arith, busy, free, nat_beq_iff e.0 k))
            (suc (length index.known_files)) (start index),
        weight-le (sized k item) size_of (λ e. ground arith) f.0.queue,
        weight-le (sized k item) size_of (λ e. ground arith) f.0.surviving,
        loop-Exceeds base_valid ref_counts target 0 (suc (length index.known_files)) (start index)
            (omega (arith, h.0), h.1),
      ),
    )

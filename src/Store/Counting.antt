-- ===== src/Store/Counting.antt =====
-- The reference counts of `LockedFiles` against the handles that are alive.
use task_maker_rust.Base.{
  ℕ, zero, suc, ◌+◌, ◌-◌, ◌≤◌, ◌≡◌, refl, ap, sym, ◌∙◌, subst, true, Option, none, some, List, [],
  ◌∷◌, arith, if◌then◌else◌,
}
use mathlib.Core.Option.{some-injective}
use task_maker_rust.Base.Counts.{occurrences}
use task_maker_rust.Base.Tests.{nat_eq, nat_beq, nat_beq_iff, is_some}
use task_maker_rust.Base.HashMap
use task_maker_rust.Base.HashMap.{HashMap, contains_key, get-insert, get-remove}
use task_maker_rust.Store.Index.{FileStoreKey}
use task_maker_rust.Store.Handles.{
  LockedFiles, FileStoreHandle, or_default, count_up, count_down, new_handle, clone_handle,
  drop_handle,
}

-- The handles that are alive, by their keys.
abbrev pub Live : Type 0
Live = List FileStoreKey

unfoldable pub drop_one : FileStoreKey → Live → Live
drop_one k [] = []
drop_one k (j ∷ live) = if nat_beq j k then live else j ∷ drop_one k live

-- Of each key there is the number of its handles, and no entry where there is none.
abbrev count_of : ℕ → Option ℕ
count_of zero = none
count_of (suc n) = some (suc n)

abbrev pub Counts : LockedFiles → Live → Type 0
Counts locked live =
    (k : FileStoreKey) → HashMap.get k locked.ref_counts ≡ count_of (occurrences k live)

count_of-or_default : (n : ℕ) → or_default (count_of n) + 1 ≡ suc n
count_of-or_default zero = omega arith
count_of-or_default (suc n) = omega arith

pub count_up-Counts :
    (k : FileStoreKey) (locked : LockedFiles) (live : Live)
    → Counts locked live
    → Counts (count_up k locked) (k ∷ live)
unfolding count_up
count_up-Counts k locked live h j = ground (
  arith,
  h k,
  h j,
  get-insert k j (or_default (HashMap.get k locked.ref_counts) + 1) locked.ref_counts,
  nat_beq_iff k j,
  count_of-or_default (occurrences k live),
)

occurrences-drop_one :
    (k j : FileStoreKey) (live : Live)
    → occurrences j (drop_one k live)
      ≡ (if nat_beq k j then occurrences j live - 1 else occurrences j live)
unfolding drop_one
occurrences-drop_one k j [] = ground arith
occurrences-drop_one k j (i ∷ live) = ground (arith, occurrences-drop_one k j live)

count_down-Counts :
    (k : FileStoreKey) (n : ℕ) (locked : LockedFiles) (live : Live)
    → Counts locked live
    → occurrences k live ≡ suc n
    → Counts (count_down k (suc n) locked) (drop_one k live)
unfolding count_down
count_down-Counts k n locked live h alive j = ground (
  arith,
  h j,
  alive,
  get-insert k j n locked.ref_counts,
  get-remove k j (HashMap.insert k n locked.ref_counts),
  nat_beq_iff k j,
  occurrences-drop_one k j live,
)

drop_handle-present :
    (handle : FileStoreHandle) (locked : LockedFiles) (n : ℕ)
    → HashMap.get handle.key locked.ref_counts ≡ some n
    → drop_handle handle locked ≡ some (count_down handle.key n locked)
unfolding drop_handle
drop_handle-present handle locked n h = ground (arith, h)

-- Where the reference counts are those of the handles that are alive, dropping one of them does
-- not panic, and leaves the counts of the others.
pub drop_handle-Counts :
    (handle : FileStoreHandle) (locked : LockedFiles) (live : Live)
    → Counts locked live
    → 1 ≤ occurrences handle.key live
    → (after : LockedFiles) × (drop_handle handle locked ≡ some after)
      × Counts after (drop_one handle.key live)
drop_handle-Counts handle locked live h alive =
    let e : occurrences handle.key live ≡ suc (occurrences handle.key live - 1) =
      omega (arith, alive) in
    (
      count_down handle.key (suc (occurrences handle.key live - 1)) locked,
      drop_handle-present handle locked _ (h handle.key ∙ ap count_of e),
      count_down-Counts handle.key (occurrences handle.key live - 1) locked live h e,
    )

-- A file is locked as long as it has a handle.
pub Counts-locked :
    (k : FileStoreKey) (locked : LockedFiles) (live : Live)
    → Counts locked live
    → 1 ≤ occurrences k live
    → contains_key k locked.ref_counts ≡ true
Counts-locked k locked live h alive = ground (arith, h k, is_some_count (occurrences k live) alive)
  where
    is_some_count : (n : ℕ) → 1 ≤ n → is_some (count_of n) ≡ true
    is_some_count zero h = absurd (omega arith)
    is_some_count (suc n) h = refl

-- The operations on handles, with the handles that are alive before and after.
pub data HandleStep : LockedFiles → Live → LockedFiles → Live → Type 0 where
  made :
      (k : FileStoreKey) (locked : LockedFiles) (live : Live)
      → HandleStep locked live (new_handle k locked).1 (k ∷ live)
  cloned :
      (handle : FileStoreHandle) (locked : LockedFiles) (live : Live)
      → 1 ≤ occurrences handle.key live
      → HandleStep locked live (clone_handle handle locked).1 (handle.key ∷ live)
  dropped :
      (handle : FileStoreHandle) (locked after : LockedFiles) (live : Live)
      → 1 ≤ occurrences handle.key live
      → drop_handle handle locked ≡ some after
      → HandleStep locked live after (drop_one handle.key live)

-- Making, cloning and dropping a handle keep the reference counts equal to the multiset of the
-- handles that are alive: each key has the number of its handles, and no entry where it has none.
pub HandleStep-Counts :
    {locked after : LockedFiles} {live live_after : Live}
    → HandleStep locked live after live_after
    → Counts locked live
    → Counts after live_after
unfolding new_handle clone_handle
HandleStep-Counts (made k locked live) h = count_up-Counts k locked live h
HandleStep-Counts (cloned handle locked live alive) h = count_up-Counts handle.key locked live h
HandleStep-Counts (dropped handle locked after live alive e) h =
    let (found, eq, counts) = drop_handle-Counts handle locked live h alive in
    subst (λ l. Counts l (drop_one handle.key live)) (some-injective _ _ (sym eq ∙ e)) counts

-- ===== src/Store/Handles.antt =====
-- `LockedFiles` and the handles of lib.rs. The path of a handle is computed from its key, and its
-- reference to the locked files is the argument `locked`. No lock is poisoned.
use task_maker_rust.Base.{ℕ, ◌+◌, ◌-◌, Option, none, some, [], if◌then◌else◌}
use task_maker_rust.Base.Tests.{nat_beq, nat_eq}
use task_maker_rust.Base.HashMap
use task_maker_rust.Base.HashMap.{HashMap}
use task_maker_rust.Store.Index.{FileStoreKey}

pub record LockedFiles : Type 0 where
  pub ref_counts : HashMap FileStoreKey ℕ

pub record FileStoreHandle : Type 0 where
  pub key : FileStoreKey

unfoldable pub new_locked : LockedFiles
new_locked = record { ref_counts = [] }

abbrev pub or_default : Option ℕ → ℕ
or_default none = 0
or_default (some n) = n

-- `entry(key).or_default() += 1`
unfoldable pub count_up : FileStoreKey → LockedFiles → LockedFiles
unfolding HashMap.get HashMap.insert
count_up key locked = record {
  ref_counts =
      HashMap.insert key (or_default (HashMap.get key locked.ref_counts) + 1) locked.ref_counts;
}

unfoldable pub new_handle : FileStoreKey → LockedFiles → FileStoreHandle × LockedFiles
unfolding count_up
new_handle key locked = (record { key = key }, count_up key locked)

unfoldable pub clone_handle : FileStoreHandle → LockedFiles → FileStoreHandle × LockedFiles
unfolding count_up
clone_handle handle locked = (record { key = handle.key }, count_up handle.key locked)

-- The count of a key that has `n` handles, when one goes.
unfoldable pub count_down : FileStoreKey → ℕ → LockedFiles → LockedFiles
unfolding HashMap.insert HashMap.remove
count_down key n locked =
    let counts = HashMap.insert key (n - 1) locked.ref_counts in
    record { ref_counts = if nat_beq (n - 1) 0 then HashMap.remove key counts else counts }

-- `none` is the panic of `expect("Ref counts are broken")`.
unfoldable pub drop_handle : FileStoreHandle → LockedFiles → Option LockedFiles
unfolding HashMap.get count_down
drop_handle handle locked = elim (HashMap.get handle.key locked.ref_counts) [
  | none ↦ none
  | some n ↦ some (count_down handle.key n locked)
]

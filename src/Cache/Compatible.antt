-- ===== src/Cache/Compatible.antt =====
-- task-maker-cache/src/entry.rs: `same_limits` and `is_compatible`, the comparisons of limits.
use task_maker_rust.Base.{
  ℕ, String, Bool, true, false, Option, none, some, List, [], ◌∷◌, ◌&&◌, not, if◌then◌else◌, ltb,
  all,
}
use task_maker_rust.Base.Tests.{nat_eq, string_eq, ◌==◌, nat_beq}
use task_maker_rust.Base.Words.{add64, sub64}
use task_maker_rust.Base.HashSet
use task_maker_rust.Base.Float.{Float}
use task_maker_rust.Dag.Execution.{Execution, is_success}
use task_maker_rust.Dag.Limits.{ExecutionLimits}
use task_maker_rust.Dag.Group.{ExecutionGroup}
use task_maker_rust.Cache.Entry.{CacheEntry, CacheEntryItem}

-- `Option` of limits and lists, compared as Rust derives it.
unfoldable pub option_beq {ℓ} : {A : Type ℓ} → (A → A → Bool) → Option A → Option A → Bool
option_beq eq none none = true
option_beq eq (some a) (some b) = eq a b
option_beq eq _ _ = false

unfoldable pub list_beq {ℓ} : {A : Type ℓ} → (A → A → Bool) → List A → List A → Bool
list_beq eq [] [] = true
list_beq eq (x ∷ xs) (y ∷ ys) = eq x y && list_beq eq xs ys
list_beq eq _ _ = false

unfoldable pub bool_beq : Bool → Bool → Bool
bool_beq true b = b
bool_beq false b = not b

-- `check_limit!`: is `left` not above `right`, where no limit is infinite? `over` compares two.
unfoldable pub check_limit {ℓ} : {A : Type ℓ} → (A → A → Bool) → Option A → Option A → Bool
check_limit over (some left) (some right) = not (over left right)
check_limit over none (some right) = false
check_limit over _ none = true

-- Is the second list, as a set, within the first?
unfoldable pub is_superset : List String → List String → Bool
is_superset left right = all (λ dir. HashSet.contains dir left) right

-- The condition on `extra_readable_dirs`: refused is a left set that is strictly larger.
unfoldable pub check_dirs : List String → List String → Bool
check_dirs left right =
    not (not (is_superset left right && is_superset right left) && is_superset left right)

module _ {F : Type 0} ⦃fl : Float F⦄ where
  unfoldable pub limits_beq : ExecutionLimits F → ExecutionLimits F → Bool
  limits_beq a b =
      option_beq fl.eq a.cpu_time b.cpu_time
      && option_beq fl.eq a.sys_time b.sys_time
      && option_beq fl.eq a.wall_time b.wall_time
      && option_beq nat_beq a.memory b.memory
      && bool_beq a.allow_multiprocess b.allow_multiprocess
      && option_beq nat_beq a.nofile b.nofile
      && option_beq nat_beq a.fsize b.fsize
      && option_beq nat_beq a.memlock b.memlock
      && option_beq nat_beq a.stack b.stack
      && bool_beq a.read_only b.read_only
      && bool_beq a.mount_tmpfs b.mount_tmpfs
      && bool_beq a.mount_proc b.mount_proc
      && list_beq (λ x y. x == y) a.extra_readable_dirs b.extra_readable_dirs
      && bool_beq a.permissive b.permissive

  unfoldable pub same_item_limits : List (CacheEntryItem F) → List (CacheEntryItem F) → Bool
  same_item_limits [] [] = true
  same_item_limits (a ∷ as') (b ∷ bs) = limits_beq a.limits b.limits && same_item_limits as' bs
  same_item_limits _ _ = false

  -- `CacheEntry::same_limits`.
  unfoldable pub same_limits : CacheEntry F → CacheEntry F → Bool
  same_limits a b = same_item_limits a.items b.items

  -- `check_limits!`: is `left` nowhere less restrictive than `right`, with the extra time and
  -- memory added to its limits?
  unfoldable pub check_limits : F → ℕ → ExecutionLimits F → ExecutionLimits F → Bool
  check_limits extra_time extra_memory left right =
      check_limit (λ l r. fl.gt (fl.add l extra_time) r) left.cpu_time right.cpu_time
      && check_limit (λ l r. fl.gt (fl.add l extra_time) r) left.sys_time right.sys_time
      && check_limit (λ l r. fl.gt (fl.add l extra_time) r) left.wall_time right.wall_time
      && check_limit (λ l r. ltb r (add64 l extra_memory)) left.memory right.memory
      && check_limit (λ l r. ltb r l) left.nofile right.nofile
      && check_limit (λ l r. ltb r l) left.fsize right.fsize
      && check_limit (λ l r. ltb r l) left.memlock right.memlock
      && check_limit (λ l r. ltb r l) left.stack right.stack
      && not (left.allow_multiprocess && not right.allow_multiprocess)
      && not (not left.read_only && right.read_only)
      && not (left.mount_tmpfs && not right.mount_tmpfs)
      && check_dirs left.extra_readable_dirs right.extra_readable_dirs

  -- One round of the loop of `is_compatible`. A success wants limits that are not tighter, any
  -- other status limits that are not looser.
  unfoldable pub compatible_item :
      CacheEntry F → ExecutionGroup F → Execution F → CacheEntryItem F → Bool
  compatible_item entry group exec item =
      if is_success (item.result).status
      then check_limits (fl.sub entry.extra_time group.config.extra_time)
          (sub64 entry.extra_memory group.config.extra_memory) item.limits exec.limits
      else check_limits (fl.sub group.config.extra_time entry.extra_time)
          (sub64 group.config.extra_memory entry.extra_memory) exec.limits item.limits

  unfoldable pub compatible_items :
      CacheEntry F → ExecutionGroup F → List (Execution F) → List (CacheEntryItem F) → Bool
  compatible_items entry group (exec ∷ execs) (item ∷ items) =
      compatible_item entry group exec item && compatible_items entry group execs items
  compatible_items entry group _ _ = true

  -- `CacheEntry::is_compatible`.
  unfoldable pub is_compatible : CacheEntry F → ExecutionGroup F → Bool
  is_compatible entry group = compatible_items entry group group.executions entry.items

-- ===== src/Cache/Limits.antt =====
-- The comparison of limits in task-maker-cache/src/entry.rs, and the status of a run under them.
use task_maker_rust.Base.{
  ℕ, ◌^◌, ◌≡◌, refl, ◌∙◌, ◌<◌, String, Bool, true, false, Option, none, some, List, ltb, arith,
}
use task_maker_rust.Base.Tests.{nat_eq, string_eq}
use task_maker_rust.Base.Float.{Float}
use task_maker_rust.Dag.Execution.{
  Execution, success, ExecutionResourcesUsage, exceeds, exceeds_memory, status,
}
use task_maker_rust.Dag.Limits.{ExecutionLimits}
use task_maker_rust.Base.Words.{add64, sub64}
use task_maker_rust.Cache.Compatible.{check_limit, check_dirs, check_limits}

-- What is used of the arithmetic of `f64`, which holds of all finite values.
pub record FloatLaws {F : Type 0} (fl : Float F) : Type 0 where
  pub gt_irrefl : (a : F) → fl.gt a a ≡ false
  pub gt_trans : (a b c : F) → fl.gt a b ≡ false → fl.gt b c ≡ false → fl.gt a c ≡ false
  pub add-sub_self : (a b x : F) → fl.gt (fl.add a (fl.sub x x)) b ≡ fl.gt a b

pub add64-sub64_self : (a x : ℕ) → a < 2 ^ 64 → x < 2 ^ 64 → add64 a (sub64 x x) ≡ a
unfolding add64 sub64
add64-sub64_self a x h k = omega arith

exceeds_memory-check_limit :
    (used x : ℕ) (old new : Option ℕ)
    → x < 2 ^ 64
    → ((m : ℕ) → old ≡ some m → m < 2 ^ 64)
    → check_limit (λ l r. ltb r (add64 l (sub64 x x))) old new ≡ true
    → exceeds_memory used old ≡ false
    → exceeds_memory used new ≡ false
unfolding check_limit
exceeds_memory-check_limit used x (some l) (some r) xs bound h k =
    ground (arith, add64-sub64_self l x (bound l refl) xs)
exceeds_memory-check_limit used x none (some r) xs bound h k = cc
exceeds_memory-check_limit used x (some l) none xs bound h k = refl
exceeds_memory-check_limit used x none none xs bound h k = refl

-- The resources are within the limits.
module _ {F : Type 0} ⦃fl : Float F⦄ where
  pub record Within (used : ExecutionResourcesUsage F) (limits : ExecutionLimits F) : Type 0 where
    pub cpu_time : exceeds used.cpu_time limits.cpu_time ≡ false
    pub sys_time : exceeds used.sys_time limits.sys_time ≡ false
    pub wall_time : exceeds used.wall_time limits.wall_time ≡ false
    pub memory : exceeds_memory used.memory limits.memory ≡ false
    pub memory_bound : (m : ℕ) → limits.memory ≡ some m → m < 2 ^ 64

  module _ (laws : FloatLaws fl) where
    exceeds-check_limit :
        (used x : F) (old new : Option F)
        → check_limit (λ l r. fl.gt (fl.add l (fl.sub x x)) r) old new ≡ true
        → exceeds used old ≡ false
        → exceeds used new ≡ false
    unfolding check_limit
    exceeds-check_limit used x (some l) (some r) h k =
        laws.gt_trans used l r k (ground (arith, laws.add-sub_self l r x))
    exceeds-check_limit used x none (some r) h k = cc
    exceeds-check_limit used x (some l) none h k = refl
    exceeds-check_limit used x none none h k = refl

  module _ (laws : FloatLaws fl) where
    -- With equal extra time and memory, a run within the old limits is within compatible new ones.
    pub status-check_limits :
        (exec : Execution F) (used : ExecutionResourcesUsage F) (old : ExecutionLimits F) (x : F)
        (y : ℕ)
        → y < 2 ^ 64
        → Within used old
        → check_limits (fl.sub x x) (sub64 y y) old exec.limits ≡ true
        → status exec success used ≡ success
    unfolding status check_limits
    status-check_limits exec used old x y small w h = ground (
      arith,
      exceeds-check_limit laws used.cpu_time x old.cpu_time (exec.limits).cpu_time,
      exceeds-check_limit laws used.sys_time x old.sys_time (exec.limits).sys_time,
      exceeds-check_limit laws used.wall_time x old.wall_time (exec.limits).wall_time,
      exceeds_memory-check_limit used.memory y old.memory (exec.limits).memory small w.memory_bound,
    )

-- A limit is compatible with itself.
check_limit_refl {ℓ} :
    {A : Type ℓ} (over : A → A → Bool) (limit : Option A)
    → ((l : A) → limit ≡ some l → over l l ≡ false)
    → check_limit over limit limit ≡ true
unfolding check_limit
check_limit_refl over none h = refl
check_limit_refl over (some l) h = rw (h l refl) refl

check_dirs_refl : (dirs : List String) → check_dirs dirs dirs ≡ true
unfolding check_dirs
check_dirs_refl dirs = ground arith

module _ {F : Type 0} ⦃fl : Float F⦄ (laws : FloatLaws fl) where
  -- So are all limits, where no time or memory is added.
  pub check_limits_refl :
      (limits : ExecutionLimits F) (x : F) (y : ℕ)
      → y < 2 ^ 64
      → ((m : ℕ) → limits.memory ≡ some m → m < 2 ^ 64)
      → check_limits (fl.sub x x) (sub64 y y) limits limits ≡ true
  unfolding check_limits
  check_limits_refl limits x y small bound =
      let time = λ (o : Option F).
        check_limit_refl (λ l r. fl.gt (fl.add l (fl.sub x x)) r) o
          (λ l _. laws.add-sub_self l l x ∙ laws.gt_irrefl l) in
      let plain = λ (o : Option ℕ). check_limit_refl (λ l r. ltb r l) o (λ l _. ground arith) in
      let memory =
        check_limit_refl (λ l r. ltb r (add64 l (sub64 y y))) limits.memory
          (λ l e. ground (arith, add64-sub64_self l y (bound l e) small)) in
      ground (
        arith,
        time limits.cpu_time,
        time limits.sys_time,
        time limits.wall_time,
        memory,
        plain limits.nofile,
        plain limits.fsize,
        plain limits.memlock,
        plain limits.stack,
        check_dirs_refl limits.extra_readable_dirs,
      )

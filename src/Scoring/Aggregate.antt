-- ===== src/Scoring/Aggregate.antt =====
-- ioi/dag/mod.rs: `TestcaseScoreAggregator::aggregate`. `none` is the panic of `unwrap` on two
-- scores that cannot be compared.
use task_maker_rust.Base.{ℕ, ◌+◌, ◌%◌, ◌^◌, Option, some, List, [], ◌∷◌, if◌then◌else◌}
use task_maker_rust.Base.Options.{◌>>=◌}
use task_maker_rust.Base.Tests.{nat_beq}
use task_maker_rust.Scoring.Numbers.{Score}

pub data TestcaseScoreAggregator : Type 0 where
  min sum : TestcaseScoreAggregator

module _ {F : Type 0} ⦃fl : Score F⦄ where
  -- `min_by`: of equal ones the first.
  unfoldable pub min_from : F → List F → Option F
  min_from x [] = some x
  min_from x (y ∷ ys) = do above ← fl.greater x y; min_from (if above then y else x) ys

  -- The `fold` with the sum and the count, an `i32` given by its 32 bits, which wrap around.
  unfoldable pub sum_count : F → ℕ → List F → F × ℕ
  sum_count total count [] = (total, count)
  sum_count total count (x ∷ xs) = sum_count (fl.add total x) ((count + 1) % 2 ^ 32) xs

  unfoldable pub aggregate : TestcaseScoreAggregator → List F → Option F
  unfolding min_from sum_count
  aggregate min [] = some fl.one
  aggregate min (x ∷ xs) = min_from x xs
  aggregate sum xs =
      let (total, count) = sum_count fl.zero 0 xs in
      some (if nat_beq count 0 then fl.one else fl.div total (fl.of_count count))

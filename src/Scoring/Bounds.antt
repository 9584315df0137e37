-- ===== src/Scoring/Bounds.antt =====
-- The bounds of `TestcaseScoreAggregator::aggregate`.
use task_maker_rust.Base.{
  ℕ, zero, suc, ◌+◌, ◌<◌, ◌^◌, ◌%◌, ◌≡◌, refl, ap, subst, Bool, true, false, Option, some, List, [],
  ◌∷◌, if◌then◌else◌, arith,
}
use task_maker_rust.Base.Lists.{All, length}
use task_maker_rust.Base.Tests.{nat_beq}
use task_maker_rust.Scoring.Numbers.{Score}
use task_maker_rust.Scoring.Aggregate.{
  TestcaseScoreAggregator, min, sum, min_from, sum_count, aggregate,
}

-- What the bounds rely on: of the numbers that are no NaN, `≤` is an order that the comparison
-- decides, sums and quotients keep it, and a count is a sum of ones, as it is exactly for the
-- counts of an `i32` that are not negative.
pub record ScoreLaws (F : Type 0) (fl : Score F) : Type 1 where
  pub below : F → F → Type 0
  pub below_refl : (a : F) → below a a
  pub below_trans : {a b c : F} → below a b → below b c → below a c
  pub zero_below_one : below fl.zero fl.one
  -- Numbers between zero and one can be compared.
  pub compared :
      (a b : F)
      → below fl.zero a
      → below fl.zero b
      → (above : Bool) × (fl.greater a b ≡ some above) × (if above then below b a else below a b)
  pub add_below : {a b c d : F} → below a b → below c d → below (fl.add a c) (fl.add b d)
  pub zero_below_add : {a b : F} → below fl.zero a → below fl.zero b → below fl.zero (fl.add a b)
  pub of_count_zero : below fl.zero (fl.of_count 0)
  pub of_count_suc : (n : ℕ) → n + 1 < 2 ^ 31 → fl.add (fl.of_count n) fl.one ≡ fl.of_count (n + 1)
  pub div_bounds :
      (n : ℕ) {a : F}
      → suc n < 2 ^ 31
      → below fl.zero a
      → below a (fl.of_count (suc n))
      → below fl.zero (fl.div a (fl.of_count (suc n)))
        × below (fl.div a (fl.of_count (suc n))) fl.one

no_wrap : (n : ℕ) → n + 1 < 2 ^ 31 → (n + 1) % 2 ^ 32 ≡ n + 1
no_wrap n h = ground (arith, h)

suc_ne_zero : (n : ℕ) → nat_beq (suc n) 0 ≡ false
suc_ne_zero n = ground arith

module _ {F : Type 0} ⦃fl : Score F⦄ (laws : ScoreLaws F fl) where
  abbrev pub IsNormal : F → Type 0
  IsNormal x = laws.below fl.zero x × laws.below x fl.one

  -- What the minimum of a list that begins with `x` is: one of its scores, and at most each.
  abbrev IsMin : F → List F → Option F → Type 0
  IsMin x xs r = (y : F) × (r ≡ some y) × IsNormal y × laws.below y x × All (laws.below y) xs

  IsMin-step :
      (x z : F) (zs : List F) (above : Bool)
      → (if above then laws.below z x else laws.below x z)
      → IsMin (if above then z else x) zs (min_from (if above then z else x) zs)
      → IsMin x (z ∷ zs) (min_from (if above then z else x) zs)
  IsMin-step x z zs true order (y, e, normal, low, lows) =
      (y, e, normal, laws.below_trans low order, (low, lows))
  IsMin-step x z zs false order (y, e, normal, low, lows) =
      (y, e, normal, low, (laws.below_trans low order, lows))

  smaller-IsNormal :
      (x z : F) (above : Bool) → IsNormal x → IsNormal z → IsNormal (if above then z else x)
  smaller-IsNormal x z true hx hz = hz
  smaller-IsNormal x z false hx hz = hx

  min_from-IsMin : (x : F) (xs : List F) → IsNormal x → All IsNormal xs → IsMin x xs (min_from x xs)
  unfolding min_from
  min_from-IsMin x [] h hs = (x, refl, h, laws.below_refl x, tt)
  min_from-IsMin x (z ∷ zs) h hs =
      let (above, e, order) = laws.compared x z h.0 hs.0.0 in
      let rest =
        IsMin-step x z zs above order
          (min_from-IsMin (if above then z else x) zs (smaller-IsNormal x z above h hs.0) hs.1) in
      rw e rest

  sum_count-bounds :
      (total : F) (count : ℕ) (xs : List F)
      → laws.below fl.zero total
      → laws.below total (fl.of_count count)
      → All IsNormal xs
      → count + length xs < 2 ^ 31
      → laws.below fl.zero (sum_count total count xs).0
        × laws.below (sum_count total count xs).0 (fl.of_count (sum_count total count xs).1)
        × ((sum_count total count xs).1 < 2 ^ 31)
  unfolding sum_count
  sum_count-bounds total count [] low high hs few = (low, high, omega (arith, few))
  sum_count-bounds total count (x ∷ xs) low high hs few =
      rw (no_wrap count (omega (arith, few)), sum_count)
        (sum_count-bounds (fl.add total x) (count + 1) xs (laws.zero_below_add low hs.0.0)
          (subst (laws.below (fl.add total x)) (laws.of_count_suc count (omega (arith, few)))
            (laws.add_below high hs.0.1))
          hs.1 (omega (arith, few)))

  abbrev quotient : F × ℕ → Option F
  quotient r = some (if nat_beq r.1 0 then fl.one else fl.div r.0 (fl.of_count r.1))

  quotient-IsNormal :
      (r : F × ℕ)
      → laws.below fl.zero r.0
      → laws.below r.0 (fl.of_count r.1)
      → r.1 < 2 ^ 31
      → (y : F) × (quotient r ≡ some y) × IsNormal y
  quotient-IsNormal (total, zero) low high few =
      (fl.one, refl, (laws.zero_below_one, laws.below_refl fl.one))
  quotient-IsNormal (total, suc n) low high few = (
    fl.div total (fl.of_count (suc n)),
    ap (λ b. some (if b then fl.one else fl.div total (fl.of_count (suc n)))) (suc_ne_zero n),
    laws.div_bounds n few low high,
  )

  -- The aggregate of less than 2^31 scores between zero and one is there, so no comparison panics,
  -- and is between zero and one, for both aggregators and for no scores at all. The order and the
  -- arithmetic are those of numbers that are no NaN.
  pub aggregate-IsNormal :
      (aggregator : TestcaseScoreAggregator) (scores : List F)
      → All IsNormal scores
      → length scores < 2 ^ 31
      → (y : F) × (aggregate aggregator scores ≡ some y) × IsNormal y
  unfolding aggregate
  aggregate-IsNormal min [] h few = (fl.one, refl, (laws.zero_below_one, laws.below_refl fl.one))
  aggregate-IsNormal min (x ∷ xs) h few =
      let (y, e, normal, low, lows) = min_from-IsMin x xs h.0 h.1 in (y, e, normal)
  aggregate-IsNormal sum xs h few =
      let bounds =
        sum_count-bounds fl.zero 0 xs (laws.below_refl fl.zero) laws.of_count_zero h
          (omega (arith, few)) in
      quotient-IsNormal (sum_count fl.zero 0 xs) bounds.0 bounds.1 bounds.2

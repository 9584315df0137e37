-- ===== src/Base/Float.antt =====
-- The operations of `f64` that the source uses. They are the hardware's, so they are a
-- parameter: a type with an instance of this record.
use mathlib.Core.Bool.{Bool}

pub record Float (F : Type 0) : Type 0 where
  pub add : F → F → F
  pub sub : F → F → F
  -- The comparison `a > b`.
  pub gt : F → F → Bool
  -- The comparison `a == b`.
  pub eq : F → F → Bool

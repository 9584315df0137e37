-- ===== src/Scoring/Numbers.antt =====
-- The operations of `f64` that the scores use. They are the hardware's, so they are a parameter.
use task_maker_rust.Base.{ℕ, Bool, Option}

pub record Score (F : Type 0) : Type 0 where
  pub zero : F
  pub one : F
  pub add : F → F → F
  pub mul : F → F → F
  pub div : F → F → F
  -- `f64::from` of the `i32` with these 32 bits.
  pub of_count : ℕ → F
  -- `a > b`, where the two can be compared.
  pub greater : F → F → Option Bool

-- ===== src/Base/HashSet.antt =====
-- `HashSet` of the standard library, as a list.
use mathlib.Core.Path.{◌≡◌, refl}
use mathlib.Core.Bool.{Bool, true, false, ◌||◌, ◌&&◌, not}
use mathlib.Core.List.{List, [], ◌∷◌}
use mathlib.Core.Logic.{◌⊎◌, inl, inr}
use native.Mathlib.Omega.{arith}
use task_maker_rust.Base.Lists.{is_empty, All}
use task_maker_rust.Base.Tests.{Bool-cases, Eq, ◌==◌, if◌then◌else◌}

abbrev pub HashSet {ℓ} : Type ℓ → Type ℓ
HashSet A = List A

module _ {ℓ} {A : Type ℓ} ⦃e : Eq A⦄ where
  unfoldable pub contains : A → HashSet A → Bool
  contains a [] = false
  contains a (x ∷ s) = x == a || contains a s

  unfoldable pub insert : A → HashSet A → HashSet A
  insert a s = if contains a s then s else a ∷ s

  unfoldable pub remove : A → HashSet A → HashSet A
  remove a [] = []
  remove a (x ∷ s) = if x == a then remove a s else x ∷ remove a s

  pub contains-insert :
      (a b : A) (s : HashSet A) → contains b (insert a s) ≡ (a == b || contains b s)
  unfolding contains insert
  contains-insert a b s = ground (arith, e.beq_iff a b)

  pub contains-remove :
      (a b : A) (s : HashSet A) → contains b (remove a s) ≡ (not (a == b) && contains b s)
  unfolding contains remove
  contains-remove a b [] = ground arith
  contains-remove a b (x ∷ s) =
      ground (arith, e.beq_iff a b, e.beq_iff x a, e.beq_iff x b, contains-remove a b s)

  pub contains_empty : (a : A) (s : HashSet A) → is_empty s ≡ true → contains a s ≡ false
  unfolding contains
  contains_empty a [] h = refl
  contains_empty a (x ∷ s) h = cc

  -- With `a` gone nothing is left, so `a` was all.
  pub eq-of_remove_empty :
      (a b : A) (s : HashSet A) → is_empty (remove a s) ≡ true → contains b s ≡ true → a ≡ b
  eq-of_remove_empty a b s h k =
      ground (arith, contains_empty b (remove a s) h, contains-remove a b s, e.beq_iff a b)

  -- What is in the set stays in it, unless it is what is removed.
  pub contains-remove_ne :
      (a b : A) (s : HashSet A) → contains b s ≡ true → (a ≡ b) ⊎ (contains b (remove a s) ≡ true)
  contains-remove_ne a b s k = ground (arith, contains-remove a b s, e.beq_iff a b)

  pub contains-insert_self : (a : A) (s : HashSet A) → contains a (insert a s) ≡ true
  contains-insert_self a s = ground (arith, contains-insert a a s, e.beq_iff a a)

  pub All-insert {μ} : (P : A → Type μ) (a : A) (s : HashSet A) → P a → All P s → All P (insert a s)
  unfolding insert
  All-insert P a s p ps = elim (Bool-cases (contains a s)) [
    | inl old ↦ rw (old, insert) ps
    | inr new ↦ rw (new, insert) (p, ps)
  ]

-- ===== src/Base/Keyed.antt =====
-- Maps that are made from other maps and from lists of keys.
use mathlib.Core.Path.{◌≡◌, sym, ap}
use mathlib.Core.Bool.{true}
use mathlib.Core.Logic.{inl, inr}
use mathlib.Core.Option.{some, some-injective}
use mathlib.Core.List.{List, [], ◌∷◌, map}
use native.Mathlib.Omega.{arith}
use Prim.Native.Nat.{ℕ}
use task_maker_rust.Base.Tests.{nat_eq, nat_beq, Bool-cases}
use task_maker_rust.Base.HashMap
use task_maker_rust.Base.HashSet
use task_maker_rust.Base.HashMap.{HashMap}

pub get-map {ℓ κ} :
    {A : Type ℓ} {B : Type κ} (f : A → B) (k : ℕ) (b : B) (m : HashMap ℕ A)
    → HashMap.get k (map (λ e. (e.0, f e.1)) m) ≡ some b
    → (a : A) × (HashMap.get k m ≡ some a) × (b ≡ f a)
unfolding HashMap.get
get-map f k b [] h = cc
get-map f k b ((j, a) ∷ m) h = elim (Bool-cases (nat_beq j k)) [
  | inl same ↦ (a, ground (arith, same), sym (some-injective _ _ (rw same at h)))
  | inr other ↦
      let (a2, found, e) = get-map f k b m (rw other at h) in (a2, ground (arith, found, other), e)
]

pub map-get {ℓ κ} :
    {A : Type ℓ} {B : Type κ} (f : A → B) (k : ℕ) (a : A) (m : HashMap ℕ A)
    → HashMap.get k m ≡ some a
    → HashMap.get k (map (λ e. (e.0, f e.1)) m) ≡ some (f a)
unfolding HashMap.get
map-get f k a [] h = cc
map-get f k a ((j, b) ∷ m) h = elim (Bool-cases (nat_beq j k)) [
  | inl same ↦ rw same (ap (λ x. some (f x)) (some-injective _ _ (rw same at h)))
  | inr other ↦ rw other (map-get f k a m (rw other at h))
]

-- Each key of a list is in the map that gives all of them one value.
pub get-of_keys {ℓ} :
    {A : Type ℓ} (a : A) (k : ℕ) (ks : List ℕ)
    → HashSet.contains k ks ≡ true
    → HashMap.get k (map (λ j. (j, a)) ks) ≡ some a
unfolding HashMap.get HashSet.contains
get-of_keys a k [] h = cc
get-of_keys a k (j ∷ ks) h = ground (arith, get-of_keys a k ks)

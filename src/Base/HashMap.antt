-- ===== src/Base/HashMap.antt =====
-- `HashMap` of the standard library, as an association list: its order is the (unspecified)
-- order in which the source's loops visit the entries.
use mathlib.Core.Path.{◌≡◌, refl, subst}
use mathlib.Core.Bool.{Bool, true, false}
use mathlib.Core.Logic.{◌⊎◌, inl, inr}
use mathlib.Core.Option.{Option, none, some, some-injective}
use mathlib.Core.List.{List, [], ◌∷◌, map}
use native.Mathlib.Omega.{arith}
use Prim.Native.Nat.{◌≤◌, ◌<◌}
use task_maker_rust.Base.Lists.{length, All}
use task_maker_rust.Base.Tests.{Bool-cases, Eq, ◌==◌, if◌then◌else◌, is_some}

abbrev pub HashMap {ℓ κ} : Type ℓ → Type κ → Type (ℓ ⊔ κ)
HashMap K V = List (K × V)

module _ {ℓ κ} {K : Type ℓ} {V : Type κ} ⦃e : Eq K⦄ where
  unfoldable pub get : K → HashMap K V → Option V
  get k [] = none
  get k ((j, v) ∷ m) = if j == k then some v else get k m

  unfoldable pub insert : K → V → HashMap K V → HashMap K V
  insert k v [] = (k, v) ∷ []
  insert k v ((j, w) ∷ m) = if j == k then (k, v) ∷ m else (j, w) ∷ insert k v m

  unfoldable pub remove : K → HashMap K V → HashMap K V
  remove k [] = []
  remove k ((j, w) ∷ m) = if j == k then remove k m else (j, w) ∷ remove k m

  abbrev pub contains_key : K → HashMap K V → Bool
  contains_key k m = is_some (get k m)

  pub get-insert :
      (k j : K) (v : V) (m : HashMap K V)
      → get j (insert k v m) ≡ (if k == j then some v else get j m)
  unfolding get insert
  get-insert k j v [] = refl
  get-insert k j v ((i, w) ∷ m) =
      ground (arith, e.beq_iff k j, e.beq_iff i k, e.beq_iff i j, get-insert k j v m)

  pub get-remove :
      (k j : K) (m : HashMap K V) → get j (remove k m) ≡ (if k == j then none else get j m)
  unfolding get remove
  get-remove k j [] = ground arith
  get-remove k j ((i, w) ∷ m) =
      ground (arith, e.beq_iff k j, e.beq_iff i k, e.beq_iff i j, get-remove k j m)

  -- Where an entry of the changed map comes from.
  pub get-insert_cases :
      (k j : K) (v w : V) (m : HashMap K V)
      → get j (insert k v m) ≡ some w
      → ((k ≡ j) × (v ≡ w)) ⊎ (get j m ≡ some w)
  get-insert_cases k j v w m h = ground (arith, get-insert k j v m, e.beq_iff k j)

  pub get-remove-some :
      (k j : K) (w : V) (m : HashMap K V) → get j (remove k m) ≡ some w → get j m ≡ some w
  get-remove-some k j w m h = ground (arith, get-remove k j m)

  pub get-insert_self : (k : K) (v : V) (m : HashMap K V) → get k (insert k v m) ≡ some v
  get-insert_self k v m = ground (arith, get-insert k k v m, e.beq_iff k k)

  -- What is in the map stays in it.
  pub contains_key-insert :
      (k j : K) (v : V) (m : HashMap K V)
      → contains_key j m ≡ true
      → contains_key j (insert k v m) ≡ true
  contains_key-insert k j v m h = ground (arith, get-insert k j v m)

  pub All-insert {μ} :
      (P : K × V → Type μ) (k : K) (v : V) (m : HashMap K V)
      → P (k, v)
      → All P m
      → All P (insert k v m)
  unfolding insert
  All-insert P k v [] p ps = (p, tt)
  All-insert P k v ((j, w) ∷ m) p ps = All_if (j == k) ps.0 (All-insert P k v m p ps.1)
    where
      All_if :
          (b : Bool)
          → P (j, w)
          → All P (insert k v m)
          → All P (if b then (k, v) ∷ m else (j, w) ∷ insert k v m)
      All_if true q rest = (p, ps.1)
      All_if false q rest = (q, rest)

  pub All-remove {μ} : (P : K × V → Type μ) (k : K) (m : HashMap K V) → All P m → All P (remove k m)
  unfolding remove
  All-remove P k [] ps = tt
  All-remove P k ((j, w) ∷ m) ps = All_if (j == k) (All-remove P k m ps.1)
    where
      All_if :
          (b : Bool) → All P (remove k m) → All P (if b then remove k m else (j, w) ∷ remove k m)
      All_if true rest = rest
      All_if false rest = (ps.0, rest)

  -- What holds of every entry holds of the one that is found.
  pub All-get {μ} :
      (P : K × V → Type μ) (k : K) (v : V) (m : HashMap K V) → All P m → get k m ≡ some v → P (k, v)
  unfolding get
  All-get P k v [] ps h = cc
  All-get P k v ((j, w) ∷ m) ps h = elim (Bool-cases (j == k)) [
    | inl same ↦
        let found : some w ≡ some v = rw same at h in
        subst (λ x. P (x, v)) ((e.beq_iff j k).0 same)
          (subst (λ x. P (j, x)) (some-injective _ _ found) ps.0)
    | inr other ↦ All-get P k v m ps.1 (rw other at h)
  ]

  pub length-insert_present :
      (k : K) (v w : V) (m : HashMap K V) → get k m ≡ some v → length (insert k w m) ≡ length m
  unfolding get insert
  length-insert_present k v w [] h = cc
  length-insert_present k v w ((j, u) ∷ m) h = ground (arith, length-insert_present k v w m)

  pub length-remove-le : (k : K) (m : HashMap K V) → length (remove k m) ≤ length m
  unfolding remove
  length-remove-le k [] = omega arith
  length-remove-le k ((j, u) ∷ m) = ground (arith, length-remove-le k m)

  pub length-remove_present :
      (k : K) (v : V) (m : HashMap K V) → get k m ≡ some v → length (remove k m) < length m
  unfolding get remove
  length-remove_present k v [] h = cc
  length-remove_present k v ((j, u) ∷ m) h =
      ground (arith, length-remove-le k m, length-remove_present k v m)

module _ {ℓ κ} {K : Type ℓ} {V : Type κ} where
  abbrev pub keys : HashMap K V → List K
  keys m = map (λ p. p.0) m

  abbrev pub values : HashMap K V → List V
  values m = map (λ p. p.1) m

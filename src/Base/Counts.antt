-- ===== src/Base/Counts.antt =====
-- How often a number stands in a list.
use Prim.Native.Nat.{ℕ, zero, suc, ◌+◌, ◌≤◌}
use mathlib.Core.Path.{◌≡◌, refl}
use mathlib.Core.Logic.{inl, inr}
use mathlib.Core.Bool.{true, ◌||◌}
use mathlib.Core.List.{List, [], ◌∷◌, ◌++◌}
use native.Mathlib.Omega.{arith}
use task_maker_rust.Base.Lists.{length}
use task_maker_rust.Base.Tests.{nat_eq, nat_beq, nat_beq_iff, if◌then◌else◌, Bool-cases}
use task_maker_rust.Base.HashSet

abbrev pub occurrences : ℕ → List ℕ → ℕ
occurrences a [] = 0
occurrences a (x ∷ xs) = if nat_beq x a then suc (occurrences a xs) else occurrences a xs

-- How many entries of the first list stand in the second, each counted as often as it stands there.
abbrev pub seen : List ℕ → List ℕ → ℕ
seen visited [] = 0
seen visited (d ∷ ds) = occurrences d visited + seen visited ds

pub occurrences-append :
    (a : ℕ) (xs ys : List ℕ) → occurrences a (xs ++ ys) ≡ occurrences a xs + occurrences a ys
occurrences-append a [] ys = omega arith
occurrences-append a (x ∷ xs) ys = ground (arith, occurrences-append a xs ys)

pub seen-append_one :
    (visited ds : List ℕ) (f : ℕ) → seen (visited ++ f ∷ []) ds ≡ seen visited ds + occurrences f ds
seen-append_one visited [] f = omega arith
seen-append_one visited (d ∷ ds) f = ground (
  arith,
  seen-append_one visited ds f,
  occurrences-append d visited (f ∷ []),
  nat_beq_iff f d,
  nat_beq_iff d f,
)

pub contains-occurrences :
    (a : ℕ) (xs : List ℕ) → suc zero ≤ occurrences a xs → HashSet.contains a xs ≡ true
unfolding HashSet.contains
contains-occurrences a [] h = absurd (omega arith)
contains-occurrences a (x ∷ xs) h = ground (arith, contains-occurrences a xs)

pub contains-append :
    (a : ℕ) (xs ys : List ℕ)
    → HashSet.contains a (xs ++ ys) ≡ (HashSet.contains a xs || HashSet.contains a ys)
unfolding HashSet.contains
contains-append a [] ys = refl
contains-append a (x ∷ xs) ys = ground (arith, contains-append a xs ys)

pub seen_empty : (ds : List ℕ) → seen [] ds ≡ 0
seen_empty [] = refl
seen_empty (d ∷ ds) = omega (arith, seen_empty ds)

-- Where nothing is visited twice, at most all entries are seen.
seen_le :
    (visited ds : List ℕ) → ((a : ℕ) → occurrences a visited ≤ 1) → seen visited ds ≤ length ds
seen_le visited [] h = omega arith
seen_le visited (d ∷ ds) h = omega (arith, h d, seen_le visited ds h)

-- If so many are seen, each is.
pub seen_all :
    (visited ds : List ℕ) (a : ℕ)
    → ((a : ℕ) → occurrences a visited ≤ 1)
    → seen visited ds ≡ length ds
    → HashSet.contains a ds ≡ true
    → HashSet.contains a visited ≡ true
unfolding HashSet.contains
seen_all visited [] a h e c = cc
seen_all visited (d ∷ ds) a h e c = elim (Bool-cases (nat_beq d a)) [
  | inl same ↦
      ground (arith, nat_beq_iff d a, h d, seen_le visited ds h, contains-occurrences d visited)
  | inr other ↦
      seen_all visited ds a h (omega (arith, h d, seen_le visited ds h)) (ground (arith, other))
]

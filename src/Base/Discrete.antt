-- ===== src/Base/Discrete.antt =====
-- Rust's derived `Eq`: from a decision of equality.
use mathlib.Core.Path.{◌≡◌, refl}
use mathlib.Core.Logic.{◌↔◌, inl, inr}
use mathlib.Core.Bool.{Bool, true, false}
use Prim.Native.String.{String}
use text.Mathlib.Text.{◌==◌ as str_eq}
use text.Mathlib.TextEquality.{eq_iff}
use native.Mathlib.Omega.{arith}
use task_maker_rust.Base.Tests.{Eq, Bool-cases}

abbrev pub decided {ℓ} : {P : Type ℓ} → Dec P → Bool
decided (yes p) = true
decided (no p) = false

pub decided_iff {ℓ} : {P : Type ℓ} (d : Dec P) → (decided d ≡ true) ↔ P
decided_iff (yes p) = (λ _. p, λ _. refl)
decided_iff (no p) = (λ e. cc, λ q. absurd (p q))

abbrev pub eq_of_discrete {ℓ} : {A : Type ℓ} → Discrete A → Eq A
eq_of_discrete d = record { beq = λ a b. decided (d a b); beq_iff = λ a b. decided_iff (d a b) }

pub str_eq-false : (s t : String) → str_eq s t ≡ false → ¬ (s ≡ t)
str_eq-false s t other e = ground (arith, (eq_iff s t).1 e)

unfoldable pub String_discrete : Discrete String
unfolding Bool-cases
String_discrete s t = elim (Bool-cases (str_eq s t)) [
  | inl same ↦ yes ((eq_iff s t).0 same)
  | inr other ↦ no (str_eq-false s t other)
]

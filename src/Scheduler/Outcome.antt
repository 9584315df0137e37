-- ===== src/Scheduler/Outcome.antt =====
-- A proof rule for the handlers: what holds of the result, and which error does not occur.
use task_maker_rust.Base.{
  ◌≡◌, refl, ◌≢◌, arith, subst, sym, All, List, [], ◌∷◌, Option, none, some, Bool, true, false,
  if◌then◌else◌, Result, ok, err, ◌>>=◌,
}
use task_maker_rust.Scheduler.State.{Error, panic, or_panic}
use task_maker_rust.Scheduler.Files.{for_each}

-- The call returns a value with `P`, or fails with an error other than `bad`.
pub data Ends {A : Type 0} (bad : Error) (P : A → Type 0) (r : Result Error A) : Type 0 where
  returns : (a : A) → r ≡ ok a → P a → Ends bad P r
  fails : (e : Error) → r ≡ err e → e ≢ bad → Ends bad P r

module _ {A : Type 0} {bad : Error} where
  pub Ends-ok : {P : A → Type 0} (a : A) → P a → Ends bad P (ok a)
  Ends-ok a p = returns a refl p

  pub Ends-err : {P : A → Type 0} (e : Error) → e ≢ bad → Ends bad P (err e)
  Ends-err e p = fails e refl p

  pub Ends-weaken :
      {P Q : A → Type 0} {r : Result Error A} → ((a : A) → P a → Q a) → Ends bad P r → Ends bad Q r
  Ends-weaken h (returns a e p) = returns a e (h a p)
  Ends-weaken h (fails x e p) = fails x e p

  pub Ends-bind :
      {B : Type 0} {P : A → Type 0} {Q : B → Type 0} {m : Result Error A} {f : A → Result Error B}
      → Ends bad P m
      → ((a : A) → m ≡ ok a → P a → Ends bad Q (f a))
      → Ends bad Q (m >>= f)
  unfolding ◌>>=◌
  Ends-bind (returns a e p) h = rw (e, ◌>>=◌) (h a e p)
  Ends-bind (fails x e p) h = rw (e, ◌>>=◌) (fails x refl p)

  pub Ends-ne : {P : A → Type 0} {r : Result Error A} → Ends bad P r → r ≢ err bad
  Ends-ne (returns a e p) q = cc
  Ends-ne (fails x e p) q = p (ground arith)

  pub Ends-if :
      {P : A → Type 0} (b : Bool) {x y : Result Error A}
      → (b ≡ true → Ends bad P x)
      → (b ≡ false → Ends bad P y)
      → Ends bad P (if b then x else y)
  Ends-if true p q = p refl
  Ends-if false p q = q refl

  pub Ends-option :
      {B : Type 0} {P : A → Type 0} (o : Option B) {x : Result Error A} {k : B → Result Error A}
      → (o ≡ none → Ends bad P x)
      → ((b : B) → o ≡ some b → Ends bad P (k b))
      → Ends bad P (elim o [ none ↦ x | some b ↦ k b ])
  Ends-option none p q = p refl
  Ends-option (some b) p q = q b refl

  pub Ends-or_panic :
      (o : Option A) → (o ≡ none → panic ≢ bad) → Ends bad (λ a. o ≡ some a) (or_panic o)
  Ends-or_panic none absent = fails panic refl (absent refl)
  Ends-or_panic (some a) absent = returns a refl refl

module _ {A B : Type 0} {bad : Error} where
  -- A lookup that is known to succeed.
  pub Ends-found :
      {P : B → Type 0} {o : Option A} (f : A → Result Error B) (a : A)
      → o ≡ some a
      → Ends bad P (f a)
      → Ends bad P (or_panic o >>= f)
  unfolding ◌>>=◌
  Ends-found {P} {o} f a e h = rw (e, or_panic, ◌>>=◌) h

  pub Ends-present :
      {P : B → Type 0} {o : Option A} (x : Result Error B) (k : A → Result Error B) (a : A)
      → o ≡ some a
      → Ends bad P (k a)
      → Ends bad P (elim o [ none ↦ x | some b ↦ k b ])
  Ends-present {P} {o} x k a e h =
      subst (λ p. Ends bad P (elim p [ none ↦ x | some b ↦ k b ])) (sym e) h

-- The rule of the loop: its body keeps the invariant.
pub Ends-for_each :
    {A S : Type 0} {bad : Error} (P : S → Type 0) {body : A → S → Result Error S} {s : S}
    (xs : List A)
    → ((x : A) (t : S) → P t → Ends bad P (body x t))
    → P s
    → Ends bad P (for_each body xs s)
unfolding for_each
Ends-for_each P {s} [] h p = Ends-ok _ p
Ends-for_each P {s} (x ∷ xs) h p = Ends-bind (h x s p) (λ t e q. Ends-for_each P xs h q)

pub Ends-value :
    {A : Type 0} {bad : Error} {P : A → Type 0} {r : Result Error A} {a : A}
    → Ends bad P r
    → r ≡ ok a
    → P a
Ends-value {P} (returns b e p) h = subst P (ground arith) p
Ends-value (fails x e p) h = cc

-- The same, where something is known of the elements.
pub Ends-for_each-All :
    {A S : Type 0} {bad : Error} (P : S → Type 0) {Q : A → Type 0} {body : A → S → Result Error S}
    {s : S} (xs : List A)
    → ((x : A) (t : S) → Q x → P t → Ends bad P (body x t))
    → All Q xs
    → P s
    → Ends bad P (for_each body xs s)
unfolding for_each
Ends-for_each-All P {s} [] h q p = Ends-ok _ p
Ends-for_each-All P {s} (x ∷ xs) h q p =
    Ends-bind (h x s q.0 p) (λ t e r. Ends-for_each-All P xs h q.1 r)

-- ===== src/Store/Loop.antt =====
-- The loop of `flush`: an induction principle, its fuel, and how it ends.
use task_maker_rust.Base.{
  ℕ, zero, suc, ◌≤◌, ◌<◌, ◌≡◌, ◌⊎◌, refl, Bool, true, false, Option, none, some, List, [], ◌∷◌,
  ◌++◌, arith, inl, inr, ltb,
}
use task_maker_rust.Base.Lists.{length}
use task_maker_rust.Base.Tests.{nat_eq, Bool-cases, Option-cases}
use task_maker_rust.Base.HashMap.{HashMap, contains_key}
use task_maker_rust.Store.Index.{
  FileStoreKey, Entry, Flush, StoreError, invalid_base_path, pop_entry, remove_entry, flush_loop,
}
use task_maker_rust.Store.Weights.{weight-pop_entry, weight}

-- The variables after a file in use was taken from the queue.
abbrev pub keep_entry : Entry → List Entry → Flush → Flush
keep_entry e rest f = record f { queue = rest; surviving = f.surviving ++ e ∷ [] }

module _ {V : Type 0} (base_valid : FileStoreKey → Bool) (ref_counts : HashMap FileStoreKey V)
    (target : ℕ) where
  -- What a turn of the loop keeps, the loop keeps.
  pub flush_loop-Keeps {ℓ} :
      (I : Flush → Type ℓ)
      → ((f : Flush) (e : Entry) (rest : List Entry)
          → pop_entry f.queue ≡ some (e, rest)
          → contains_key e.0 ref_counts ≡ true
          → I f
          → I (keep_entry e rest f))
      → ((f : Flush) (e : Entry) (rest : List Entry)
          → pop_entry f.queue ≡ some (e, rest)
          → contains_key e.0 ref_counts ≡ false
          → target < f.total_size
          → I f
          → I (remove_entry e rest f))
      → (fuel : ℕ) (f : Flush) → I f
      → I (flush_loop fuel base_valid ref_counts target f).0
  unfolding flush_loop
  flush_loop-Keeps I keep drop zero f h = elim (Bool-cases (ltb target f.total_size)) [
    | inl more ↦ rw more h
    | inr less ↦ rw less h
  ]
  flush_loop-Keeps I keep drop (suc fuel) f h = elim (Bool-cases (ltb target f.total_size)) [
    | inr less ↦ rw less h
    | inl more ↦ elim (Option-cases (pop_entry f.queue)) [
      | inl empty ↦ rw (more, empty) h
      | inr ((e, rest), popped) ↦ elim (Bool-cases (contains_key e.0 ref_counts)) [
        | inl used ↦
            rw (more, popped, used)
              (flush_loop-Keeps I keep drop fuel _ (keep f e rest popped used h))
        | inr free ↦
            let next = drop f e rest popped free (ground arith) h in
            elim (Bool-cases (base_valid e.0)) [
              | inl valid ↦
                  rw (more, popped, free, valid) (flush_loop-Keeps I keep drop fuel _ next)
              | inr gone ↦ rw (more, popped, free, gone) next
            ]
      ]
    ]
  ]

  -- The ways in which the loop ends.
  abbrev pub Ended : Flush → Option StoreError → Type 0
  Ended f error =
      ((error ≡ some invalid_base_path) × ((k : FileStoreKey) × (base_valid k ≡ false)))
      ⊎ ((error ≡ none) × ((f.total_size ≤ target) ⊎ (f.queue ≡ [])))

  length-weight : (es : List Entry) → length es ≡ weight (λ _. 1) es
  length-weight [] = refl
  length-weight (e ∷ es) = omega (arith, length-weight es)

  length-pop_entry :
      (es : List Entry) (e : Entry) (rest : List Entry)
      → pop_entry es ≡ some (e, rest)
      → length es ≡ suc (length rest)
  length-pop_entry es e rest h =
      omega (arith, length-weight es, length-weight rest, weight-pop_entry (λ _. 1) es e rest h)

  pop_entry-eq_none : (es : List Entry) → pop_entry es ≡ none → es ≡ []
  unfolding pop_entry
  pop_entry-eq_none [] h = refl
  pop_entry-eq_none (x ∷ xs) h = cc

  -- With a turn for each entry of the queue, the loop does not run out of fuel.
  pub flush_loop-ends :
      (fuel : ℕ) (f : Flush)
      → length f.queue < fuel
      → Ended
          (flush_loop fuel base_valid ref_counts target f).0
          (flush_loop fuel base_valid ref_counts target f).1
  unfolding flush_loop
  flush_loop-ends zero f h = absurd (omega arith)
  flush_loop-ends (suc fuel) f h = elim (Bool-cases (ltb target f.total_size)) [
    | inr less ↦ rw less (inr (refl, inl (ground arith)))
    | inl more ↦ elim (Option-cases (pop_entry f.queue)) [
      | inl empty ↦ rw (more, empty) (inr (refl, inr (pop_entry-eq_none f.queue empty)))
      | inr ((e, rest), popped) ↦
          let enough : length rest < fuel = omega (arith, length-pop_entry f.queue e rest popped) in
          elim (Bool-cases (contains_key e.0 ref_counts)) [
            | inl used ↦ rw (more, popped, used) (flush_loop-ends fuel _ enough)
            | inr free ↦ elim (Bool-cases (base_valid e.0)) [
              | inl valid ↦ rw (more, popped, free, valid) (flush_loop-ends fuel _ enough)
              | inr gone ↦ rw (more, popped, free, gone) (inl (refl, (e.0, gone)))
            ]
          ]
    ]
  ]

-- ===== src/Store/Held.antt =====
-- The entries that the loop of `flush` holds, in its queue and put aside.
use task_maker_rust.Base.{
  ℕ, ◌+◌, ◌^◌, ◌≤◌, ◌<◌, ◌≡◌, refl, Bool, true, false, none, some, List, [], ◌∷◌, arith,
  if◌then◌else◌,
}
use task_maker_rust.Base.Tests.{nat_eq, nat_beq_iff}
use task_maker_rust.Base.Words.{sub64}
use task_maker_rust.Base.HashSet
use task_maker_rust.Base.HashMap.{HashMap, contains_key}
use task_maker_rust.Store.Index.{
  FileStoreKey, Entry, Flush, Flushed, pop_entry, remove_entry, flush_loop, insert_all, finish,
}
use task_maker_rust.Store.Weights.{
  weight, size_of, has_key, weight-append, weight-pop_entry, weight-insert_all,
}
use task_maker_rust.Store.Loop.{keep_entry, flush_loop-Keeps}

-- What the variables of the loop hold.
abbrev pub held : (Entry → ℕ) → Flush → ℕ
held w f = weight w f.queue + weight w f.surviving

pub held-keep :
    (w : Entry → ℕ) (f : Flush) (e : Entry) (rest : List Entry)
    → pop_entry f.queue ≡ some (e, rest)
    → held w (keep_entry e rest f) ≡ held w f
held-keep w f e rest h =
    omega (arith, weight-pop_entry w f.queue e rest h, weight-append w f.surviving (e ∷ []))

held-remove :
    (w : Entry → ℕ) (f : Flush) (e : Entry) (rest : List Entry)
    → pop_entry f.queue ≡ some (e, rest)
    → w e + held w (remove_entry e rest f) ≡ held w f
unfolding remove_entry
held-remove w f e rest h = omega (arith, weight-pop_entry w f.queue e rest h)

-- The total is above the sum of the sizes by `slack`.
abbrev pub Exceeds : ℕ → ℕ → ℕ → Type 0
Exceeds slack total sizes = (sizes + slack ≡ total) × (total < 2 ^ 64)

remove_entry-Exceeds :
    (slack : ℕ) (g : Flush) (e : Entry) (rest : List Entry)
    → size_of e + held size_of (remove_entry e rest g) ≡ held size_of g
    → Exceeds slack g.total_size (held size_of g)
    → Exceeds slack (remove_entry e rest g).total_size (held size_of (remove_entry e rest g))
unfolding remove_entry sub64
remove_entry-Exceeds slack g e rest p h = omega (arith, p, h.0, h.1)

pub weight-le :
    (v w : Entry → ℕ) → ((e : Entry) → v e ≤ w e) → (es : List Entry) → weight v es ≤ weight w es
weight-le v w h [] = omega arith
weight-le v w h (e ∷ es) = omega (arith, h e, weight-le v w h es)

pub weight-finish :
    (w : Entry → ℕ) (r : Flushed)
    → ((k : FileStoreKey) → held (has_key k) r.0 ≤ 1)
    → r.1 ≡ none
    → weight w (finish r).known_files ≡ held w r.0
unfolding finish
weight-finish w (f, none) d fine =
    let first : (v : Entry → ℕ) → weight v (insert_all f.surviving []) ≡ weight v f.surviving =
      λ v. omega (arith, weight-insert_all v f.surviving [] λ k. omega (arith, d k)) in
    omega (
      arith,
      first w,
      weight-insert_all w f.queue (insert_all f.surviving [])
          λ k. omega (arith, d k, first (has_key k)),
    )
weight-finish w (f, some e) d fine = cc

pub total-finish : (r : Flushed) → (finish r).total_size ≡ r.0.total_size
unfolding finish
total-finish (f, none) = refl
total-finish (f, some e) = refl

module _ {V : Type 0} (base_valid : FileStoreKey → Bool) (ref_counts : HashMap FileStoreKey V)
    (target : ℕ) where
  abbrev pub loop : ℕ → Flush → Flushed
  loop fuel f = flush_loop fuel base_valid ref_counts target f

  -- Nothing enters the index.
  pub held-loop-le : (w : Entry → ℕ) (fuel : ℕ) (f : Flush) → held w (loop fuel f).0 ≤ held w f
  held-loop-le w fuel f =
      flush_loop-Keeps base_valid ref_counts target (λ g. held w g ≤ held w f)
        (λ g e rest p used h. omega (arith, held-keep w g e rest p, h))
        (λ g e rest p free more h. omega (arith, held-remove w g e rest p, h)) fuel f (omega arith)

  -- What stands only for files in use stays.
  pub held-loop-used :
      (w : Entry → ℕ)
      → ((e : Entry) → contains_key e.0 ref_counts ≡ false → w e ≡ 0)
      → (fuel : ℕ) (f : Flush) → held w (loop fuel f).0 ≡ held w f
  held-loop-used w light fuel f =
      flush_loop-Keeps base_valid ref_counts target (λ g. held w g ≡ held w f)
        (λ g e rest p used h. omega (arith, held-keep w g e rest p, h))
        (λ g e rest p free more h. omega (arith, held-remove w g e rest p, h, light e free)) fuel f
        refl

  pub loop-Exceeds :
      (slack fuel : ℕ) (f : Flush)
      → Exceeds slack f.total_size (held size_of f)
      → Exceeds slack (loop fuel f).0.total_size (held size_of (loop fuel f).0)
  loop-Exceeds slack =
      flush_loop-Keeps base_valid ref_counts target
        (λ g. Exceeds slack g.total_size (held size_of g))
        (λ g e rest p used h. omega (arith, held-keep size_of g e rest p, h.0, h.1))
        (λ g e rest p free more h.
          remove_entry-Exceeds slack g e rest (held-remove size_of g e rest p) h)

  abbrev pub unused : Entry → ℕ
  unused e = if contains_key e.0 ref_counts then 0 else 1

  -- The entries that were put aside are of files in use.
  pub loop-surviving :
      (fuel : ℕ) (f : Flush)
      → weight unused f.surviving ≡ 0
      → weight unused (loop fuel f).0.surviving ≡ 0
  unfolding remove_entry
  loop-surviving =
      flush_loop-Keeps base_valid ref_counts target (λ g. weight unused g.surviving ≡ 0)
        (λ g e rest p used h. ground (arith, weight-append unused g.surviving (e ∷ []), used, h))
        (λ g e rest p free more h. h)

  -- A file in use is not removed.
  pub loop-removed_files :
      (k : FileStoreKey)
      → contains_key k ref_counts ≡ true
      → (fuel : ℕ) (f : Flush) → HashSet.contains k f.removed_files ≡ false
      → HashSet.contains k (loop fuel f).0.removed_files ≡ false
  unfolding remove_entry HashSet.contains
  loop-removed_files k busy =
      flush_loop-Keeps base_valid ref_counts target
        (λ g. HashSet.contains k g.removed_files ≡ false) (λ g e rest p used h. h)
        (λ g e rest p free more h. ground (arith, busy, free, h, nat_beq_iff e.0 k))

-- ===== src/Store/Newest.antt =====
-- In which order `flush` of index.rs removes files.
use task_maker_rust.Base.{
  ℕ, suc, ◌≤◌, ◌≡◌, ◌⊎◌, refl, subst, Bool, true, false, none, some, List, [], ◌∷◌, arith, inl, inr,
}
use mathlib.Core.Option.{some-injective}
use task_maker_rust.Base.Lists.{length}
use task_maker_rust.Base.Tests.{nat_eq, nat_beq, nat_beq_iff, Bool-cases}
use task_maker_rust.Base.HashMap
use task_maker_rust.Base.HashMap.{HashMap, contains_key}
use task_maker_rust.Store.Index.{
  FileStoreKey, FileStoreIndexItem, FileStoreIndex, Entry, Flush, older, pop_entry, pop_newest,
  remove_entry, start,
}
use task_maker_rust.Store.Weights.{
  weight, is_entry, AreDistinct, weight-append, weight-pop_entry, get-of_entry, entry-of_get,
}
use task_maker_rust.Store.Loop.{flush_loop-Keeps}
use task_maker_rust.Store.Held.{held, loop}
use task_maker_rust.Store.Flushing.{flushed, error, loop_end, weight-flushed, flush-AreDistinct}

older-trans_first : (top x y : Entry) → older top y ≡ false → older x y ≡ true → older top x ≡ false
unfolding older
older-trans_first top x y h l = ground arith

older-trans_second :
    (top x y : Entry) → older top x ≡ false → older x y ≡ false → older top y ≡ false
unfolding older
older-trans_second top x y h l = ground arith

older_irrefl : (x : Entry) → older x x ≡ false
unfolding older
older_irrefl x = ground arith

older-is_entry :
    (j : FileStoreKey) (b : FileStoreIndexItem) (top e : Entry)
    → 1 ≤ is_entry j b e
    → older top e ≡ false
    → older top (j, b) ≡ false
unfolding older
older-is_entry j b top e same h = ground arith

older-pop_newest_first : (x : Entry) (xs : List Entry) → older (pop_newest x xs).0 x ≡ false
unfolding pop_newest
older-pop_newest_first x [] = older_irrefl x
older-pop_newest_first x (y ∷ ys) = elim (Bool-cases (older x y)) [
  | inl l ↦ rw l (older-trans_first (pop_newest y ys).0 x y (older-pop_newest_first y ys) l)
  | inr l ↦ rw l (older-pop_newest_first x ys)
]

-- The entry that is popped is a greatest one.
older-pop_newest :
    (j : FileStoreKey) (b : FileStoreIndexItem) (x : Entry) (xs : List Entry)
    → 1 ≤ weight (is_entry j b) (pop_newest x xs).1
    → older (pop_newest x xs).0 (j, b) ≡ false
unfolding pop_newest
older-pop_newest j b x [] h = absurd (omega arith)
older-pop_newest j b x (y ∷ ys) h = elim (Bool-cases (older x y)) [
  | inl l ↦ elim (Bool-cases (is_this x)) [
    | inl here ↦ rw l (
        older-is_entry j b (pop_newest y ys).0 x (ground (arith, here))
          (older-trans_first (pop_newest y ys).0 x y (older-pop_newest_first y ys) l))
    | inr there ↦ rw l (older-pop_newest j b y ys (ground (arith, there, rw l at h)))
  ]
  | inr l ↦ elim (Bool-cases (is_this y)) [
    | inl here ↦ rw l (
        older-is_entry j b (pop_newest x ys).0 y (ground (arith, here))
          (older-trans_second (pop_newest x ys).0 x y (older-pop_newest_first x ys) l))
    | inr there ↦ rw l (older-pop_newest j b x ys (ground (arith, there, rw l at h)))
  ]
]
  where
    is_this : Entry → Bool
    is_this e = nat_beq (is_entry j b e) 1

older-pop_entry :
    (j : FileStoreKey) (b : FileStoreIndexItem) (es : List Entry) (top : Entry) (rest : List Entry)
    → pop_entry es ≡ some (top, rest)
    → 1 ≤ weight (is_entry j b) rest
    → older top (j, b) ≡ false
unfolding pop_entry
older-pop_entry j b [] top rest h some_b = cc
older-pop_entry j b (x ∷ xs) top rest h some_b =
    subst (λ p. 1 ≤ weight (is_entry j b) p.1 → older p.0 (j, b) ≡ false) (some-injective _ _ h)
      (older-pop_newest j b x xs) some_b

module _ {V : Type 0} (base_valid : FileStoreKey → Bool) (ref_counts : HashMap FileStoreKey V)
    (target : ℕ) (k j : FileStoreKey) (a b : FileStoreIndexItem)
    (free : contains_key j ref_counts ≡ false) where
  -- Either the first is still there, or the second is gone or not greater.
  abbrev Ordered : Flush → Type 0
  Ordered f =
      (weight (is_entry j b) f.surviving ≡ 0)
      × ((1 ≤ weight (is_entry k a) f.queue)
          ⊎ (older (k, a) (j, b) ≡ false)
          ⊎ (weight (is_entry j b) f.queue ≡ 0))

  is_this : Entry → Bool
  is_this e = nat_beq (is_entry k a e) 1

  older-of_entry :
      (e : Entry) → is_entry k a e ≡ 1 → older e (j, b) ≡ false → older (k, a) (j, b) ≡ false
  unfolding older
  older-of_entry e same h = ground arith

  next_queue :
      (queue : List Entry) (e : Entry) (rest : List Entry)
      → pop_entry queue ≡ some (e, rest)
      → (1 ≤ weight (is_entry k a) queue)
        ⊎ (older (k, a) (j, b) ≡ false)
        ⊎ (weight (is_entry j b) queue ≡ 0)
      → (1 ≤ weight (is_entry k a) rest)
        ⊎ (older (k, a) (j, b) ≡ false)
        ⊎ (weight (is_entry j b) rest ≡ 0)
  next_queue queue e rest p h = ground (
    arith,
    h,
    weight-pop_entry (is_entry k a) queue e rest p,
    weight-pop_entry (is_entry j b) queue e rest p,
    older-pop_entry j b queue e rest p,
    older-of_entry e,
  )

  loop-Ordered :
      (fuel : ℕ) (f : Flush) → Ordered f → Ordered (loop base_valid ref_counts target fuel f).0
  unfolding remove_entry
  loop-Ordered =
      flush_loop-Keeps base_valid ref_counts target Ordered
        (λ g e rest p busy h. (
          ground (
            arith,
            free,
            busy,
            h.0,
            nat_beq_iff e.0 j,
            weight-append (is_entry j b) g.surviving (e ∷ []),
          ),
          next_queue g.queue e rest p h.1,
        ))
        (λ g e rest p gone more h. (h.0, next_queue g.queue e rest p h.1))

  -- Where a `flush` without an error removes one file of an index that has no key twice and leaves
  -- another that is not in use, the one that it leaves was not used after the one that it removes.
  pub flush-newest_first :
      (index : FileStoreIndex)
      → AreDistinct index.known_files
      → error base_valid ref_counts target index ≡ none
      → HashMap.get k index.known_files ≡ some a
      → HashMap.get k (flushed base_valid ref_counts target index).known_files ≡ none
      → HashMap.get j (flushed base_valid ref_counts target index).known_files ≡ some b
      → b.last_access ≤ a.last_access
  unfolding older
  flush-newest_first index d fine first gone stays = elim final.1 [
    | inl here ↦
        let still : HashMap.get k after ≡ some a =
          get-of_entry k a after (flush-AreDistinct base_valid ref_counts target index d fine)
            (omega (arith, here, at_end (is_entry k a))) in
        absurd (ground (arith, gone, still))
    | inr (inl newer) ↦ ground (arith, newer)
    | inr (inr lost) ↦
        absurd (omega (arith, lost, at_end (is_entry j b), entry-of_get j b after stays, final.0))
  ]
    where
      after : List Entry
      after = (flushed base_valid ref_counts target index).known_files

      at_end :
          (w : Entry → ℕ) → weight w after ≡ held w (loop_end base_valid ref_counts target index).0
      at_end w = weight-flushed base_valid ref_counts target index w d fine

      final : Ordered (loop_end base_valid ref_counts target index).0
      final =
          loop-Ordered (suc (length index.known_files)) (start index)
            (refl, inl (entry-of_get k a index.known_files first))

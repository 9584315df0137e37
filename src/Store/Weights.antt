-- ===== src/Store/Weights.antt =====
-- Sums over the entries of an index: what they weigh does not depend on their order.
use task_maker_rust.Base.{
  ℕ, ◌+◌, ◌≤◌, ◌≡◌, refl, ◌&&◌, none, some, List, [], ◌∷◌, ◌++◌, arith, inl, inr, if◌then◌else◌,
}
use task_maker_rust.Base.Tests.{nat_beq, nat_eq, Bool-cases}
use task_maker_rust.Base.HashMap
use task_maker_rust.Store.Index.{
  FileStoreKey, FileStoreIndexItem, Entry, older, pop_newest, pop_entry, insert_all,
}

abbrev pub weight : (Entry → ℕ) → List Entry → ℕ
weight w [] = 0
weight w (e ∷ es) = w e + weight w es

abbrev pub size_of : Entry → ℕ
size_of e = e.1.size

abbrev pub has_key : FileStoreKey → Entry → ℕ
has_key k e = if nat_beq e.0 k then 1 else 0

abbrev pub is_entry : FileStoreKey → FileStoreIndexItem → Entry → ℕ
is_entry k item e =
    if nat_beq e.0 k && nat_beq e.1.size item.size && nat_beq e.1.last_access item.last_access
    then 1
    else 0

abbrev pub copies : FileStoreKey → List Entry → ℕ
copies k es = weight (has_key k) es

pub weight-append :
    (w : Entry → ℕ) (xs ys : List Entry) → weight w (xs ++ ys) ≡ weight w xs + weight w ys
weight-append w [] ys = omega arith
weight-append w (x ∷ xs) ys = omega (arith, weight-append w xs ys)

pub weight-pop_newest :
    (w : Entry → ℕ) (x : Entry) (xs : List Entry)
    → w (pop_newest x xs).0 + weight w (pop_newest x xs).1 ≡ w x + weight w xs
unfolding pop_newest
weight-pop_newest w x [] = omega arith
weight-pop_newest w x (y ∷ ys) = elim (Bool-cases (older x y)) [
  | inl l ↦ rw l (omega (arith, weight-pop_newest w y ys))
  | inr l ↦ rw l (omega (arith, weight-pop_newest w x ys))
]

pub weight-pop_entry :
    (w : Entry → ℕ) (es : List Entry) (top : Entry) (rest : List Entry)
    → pop_entry es ≡ some (top, rest)
    → w top + weight w rest ≡ weight w es
unfolding pop_entry
weight-pop_entry w [] top rest h = cc
weight-pop_entry w (x ∷ xs) top rest h = ground (arith, weight-pop_newest w x xs)

pub weight-insert :
    (w : Entry → ℕ) (k : FileStoreKey) (item : FileStoreIndexItem) (es : List Entry)
    → copies k es ≡ 0
    → weight w (HashMap.insert k item es) ≡ w (k, item) + weight w es
unfolding HashMap.insert
weight-insert w k item [] h = omega arith
weight-insert w k item ((j, e) ∷ es) h = ground (arith, weight-insert w k item es)

pub weight-insert_present :
    (k : FileStoreKey) (old item : FileStoreIndexItem) (es : List Entry)
    → HashMap.get k es ≡ some old
    → old.size ≡ item.size
    → weight size_of (HashMap.insert k item es) ≡ weight size_of es
unfolding HashMap.get HashMap.insert
weight-insert_present k old item [] h same = cc
weight-insert_present k old item ((j, e) ∷ es) h same =
    ground (arith, weight-insert_present k old item es)

pub copies-insert_present :
    (k j : FileStoreKey) (old item : FileStoreIndexItem) (es : List Entry)
    → HashMap.get k es ≡ some old
    → copies j (HashMap.insert k item es) ≡ copies j es
unfolding HashMap.get HashMap.insert
copies-insert_present k j old item [] h = cc
copies-insert_present k j old item ((i, e) ∷ es) h =
    ground (arith, copies-insert_present k j old item es)

pub copies-eq_zero :
    (k : FileStoreKey) (es : List Entry) → HashMap.get k es ≡ none → copies k es ≡ 0
unfolding HashMap.get
copies-eq_zero k [] h = refl
copies-eq_zero k ((j, e) ∷ es) h = ground (arith, copies-eq_zero k es)

-- No key stands twice.
abbrev pub AreDistinct : List Entry → Type 0
AreDistinct es = (k : FileStoreKey) → copies k es ≤ 1

pub weight-insert_all :
    (w : Entry → ℕ) (new es : List Entry)
    → ((k : FileStoreKey) → copies k new + copies k es ≤ 1)
    → weight w (insert_all new es) ≡ weight w new + weight w es
unfolding insert_all
weight-insert_all w [] es h = omega arith
weight-insert_all w ((k, item) ∷ new) es h =
    let absent : copies k es ≡ 0 = ground (arith, h k) in
    omega (
      arith,
      weight-insert w k item es absent,
      weight-insert_all w new (HashMap.insert k item es)
          λ j. ground (arith, h j, weight-insert (has_key j) k item es absent),
    )

-- Where no key stands twice, an entry is found exactly when it stands there.
is_entry_le :
    (k : FileStoreKey) (item : FileStoreIndexItem) (es : List Entry)
    → weight (is_entry k item) es ≤ copies k es
is_entry_le k item [] = omega arith
is_entry_le k item (e ∷ es) = ground (arith, is_entry_le k item es)

pub get-of_entry :
    (k : FileStoreKey) (item : FileStoreIndexItem) (es : List Entry)
    → AreDistinct es
    → 1 ≤ weight (is_entry k item) es
    → HashMap.get k es ≡ some item
unfolding HashMap.get
get-of_entry k item [] d h = absurd (omega arith)
get-of_entry k item ((j, e) ∷ es) d h =
    ground (arith, d k, is_entry_le k item es, get-of_entry k item es λ i. ground (arith, d i))

pub entry-of_get :
    (k : FileStoreKey) (item : FileStoreIndexItem) (es : List Entry)
    → HashMap.get k es ≡ some item
    → 1 ≤ weight (is_entry k item) es
unfolding HashMap.get
entry-of_get k item [] h = cc
entry-of_get k item ((j, e) ∷ es) h = ground (arith, entry-of_get k item es)

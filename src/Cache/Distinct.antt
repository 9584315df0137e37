-- ===== src/Cache/Distinct.antt =====
-- The entries under one key of the cache, task-maker-cache/src/lib.rs, and their limits.
use task_maker_rust.Base.{
  ℕ, ◌≡◌, refl, inl, inr, subst, String, Bool, true, false, Option, none, some, List, [], ◌∷◌, ◌&&◌,
  All, All-imp, arith,
}
use mathlib.Core.Option.{some-injective}
use task_maker_rust.Base.Options.{>>=-eq-some}
use task_maker_rust.Base.Tests.{nat_beq, nat_beq_iff, string_eq, ◌==◌, Bool-cases, if_ind}
use task_maker_rust.Base.HashMap
use task_maker_rust.Base.HashMap.{HashMap}
use task_maker_rust.Base.Float.{Float}
use task_maker_rust.Dag.Execution.{ExecutionResult}
use task_maker_rust.Dag.Group.{ExecutionGroup}
use task_maker_rust.Cache.Key.{Names, cache_key_eq, key_of_group}
use task_maker_rust.Cache.Entry.{CacheEntry, entry_of_group}
use task_maker_rust.Cache.Compatible.{
  option_beq, list_beq, bool_beq, limits_beq, same_item_limits, same_limits,
}
use task_maker_rust.Cache.Answers.{All-put_entry}
use task_maker_rust.Cache.Query.{CacheFile, or_empty, put_entry, insert}

abbrev IsTrans {ℓ} : {A : Type ℓ} → (A → A → Bool) → Type ℓ
IsTrans {A = A} eq = (a b c : A) → eq a b ≡ true → eq b c ≡ true → eq a c ≡ true

option_beq-IsTrans {ℓ} : {A : Type ℓ} (eq : A → A → Bool) → IsTrans eq → IsTrans (option_beq eq)
unfolding option_beq
option_beq-IsTrans eq h none none c p q = q
option_beq-IsTrans eq h none (some b) c p q = cc
option_beq-IsTrans eq h (some a) none c p q = cc
option_beq-IsTrans eq h (some a) (some b) none p q = cc
option_beq-IsTrans eq h (some a) (some b) (some c) p q = h a b c p q

list_beq-IsTrans {ℓ} : {A : Type ℓ} (eq : A → A → Bool) → IsTrans eq → IsTrans (list_beq eq)
unfolding list_beq
list_beq-IsTrans eq h [] [] c p q = q
list_beq-IsTrans eq h [] (b ∷ bs) c p q = cc
list_beq-IsTrans eq h (a ∷ as') [] c p q = cc
list_beq-IsTrans eq h (a ∷ as') (b ∷ bs) [] p q = cc
list_beq-IsTrans eq h (a ∷ as') (b ∷ bs) (c ∷ cs) p q =
    ground (arith, h a b c, list_beq-IsTrans eq h as' bs cs)

bool_beq-IsTrans : IsTrans bool_beq
unfolding bool_beq
bool_beq-IsTrans a b c p q = ground arith

nat_beq-IsTrans : IsTrans nat_beq
nat_beq-IsTrans a b c p q = ground (arith, nat_beq_iff a b, nat_beq_iff b c, nat_beq_iff a c)

string_beq-IsTrans : IsTrans (λ (x y : String). x == y)
string_beq-IsTrans a b c p q =
    ground (arith, string_eq.beq_iff a b, string_eq.beq_iff b c, string_eq.beq_iff a c)

-- A step of the comparison of records.
and_trans :
    {a b c a' b' c' : Bool}
    → (a ≡ true → b ≡ true → c ≡ true)
    → (a' ≡ true → b' ≡ true → c' ≡ true)
    → (a && a') ≡ true
    → (b && b') ≡ true
    → (c && c') ≡ true
and_trans h k p q = ground (arith, h, k)

module _ {F : Type 0} ⦃fl : Float F⦄
    (eq_trans : (a b c : F) → fl.eq a b ≡ true → fl.eq b c ≡ true → fl.eq a c ≡ true) where
  limits_beq-IsTrans : IsTrans (limits_beq {F = F})
  unfolding limits_beq
  limits_beq-IsTrans a b c =
      let time = λ (x y z : Option F). option_beq-IsTrans fl.eq eq_trans x y z in
      let number = λ (x y z : Option ℕ). option_beq-IsTrans nat_beq nat_beq-IsTrans x y z in
      and_trans
        (and_trans
          (and_trans
            (and_trans
              (and_trans
                (and_trans
                  (and_trans
                    (and_trans
                      (and_trans
                        (and_trans
                          (and_trans
                            (and_trans
                              (and_trans (time a.cpu_time b.cpu_time c.cpu_time)
                                (time a.sys_time b.sys_time c.sys_time))
                              (time a.wall_time b.wall_time c.wall_time))
                            (number a.memory b.memory c.memory))
                          (bool_beq-IsTrans a.allow_multiprocess b.allow_multiprocess
                            c.allow_multiprocess))
                        (number a.nofile b.nofile c.nofile))
                      (number a.fsize b.fsize c.fsize))
                    (number a.memlock b.memlock c.memlock))
                  (number a.stack b.stack c.stack))
                (bool_beq-IsTrans a.read_only b.read_only c.read_only))
              (bool_beq-IsTrans a.mount_tmpfs b.mount_tmpfs c.mount_tmpfs))
            (bool_beq-IsTrans a.mount_proc b.mount_proc c.mount_proc))
          (list_beq-IsTrans (λ x y. x == y) string_beq-IsTrans a.extra_readable_dirs
            b.extra_readable_dirs c.extra_readable_dirs))
        (bool_beq-IsTrans a.permissive b.permissive c.permissive)

  same_item_limits-IsTrans : IsTrans (same_item_limits {F = F})
  unfolding same_item_limits
  same_item_limits-IsTrans [] [] c p q = q
  same_item_limits-IsTrans [] (b ∷ bs) c p q = cc
  same_item_limits-IsTrans (a ∷ as') [] c p q = cc
  same_item_limits-IsTrans (a ∷ as') (b ∷ bs) [] p q = cc
  same_item_limits-IsTrans (a ∷ as') (b ∷ bs) (c ∷ cs) p q =
      ground
        (arith, limits_beq-IsTrans a.limits b.limits c.limits, same_item_limits-IsTrans as' bs cs)

  same_limits-IsTrans : IsTrans (same_limits {F = F})
  unfolding same_limits
  same_limits-IsTrans a b c = same_item_limits-IsTrans a.items b.items c.items

  -- No entry has the same limits as a later one.
  abbrev pub AreDistinct : List (CacheEntry F) → Type 0
  AreDistinct [] = Unit {0}
  AreDistinct (e ∷ set) = All (λ other. same_limits e other ≡ false) set × AreDistinct set

  put_entry-AreDistinct :
      (entry : CacheEntry F) (set : List (CacheEntry F))
      → AreDistinct set
      → AreDistinct (put_entry entry set)
  unfolding put_entry
  put_entry-AreDistinct entry [] h = (tt, tt)
  put_entry-AreDistinct entry (e ∷ set) h =
      if_ind AreDistinct (same_limits e entry)
        (λ same. (All-imp set (λ other differs. replaced other same differs) h.0, h.1))
        (λ differs. (
          All-put_entry (λ other. same_limits e other ≡ false) entry set differs h.0,
          put_entry-AreDistinct entry set h.1,
        ))
    where
      replaced :
          (other : CacheEntry F)
          → same_limits e entry ≡ true
          → same_limits e other ≡ false
          → same_limits entry other ≡ false
      replaced other same differs = elim (Bool-cases (same_limits entry other)) [
        | inl hit ↦ absurd (ground (arith, same_limits-IsTrans e entry other))
        | inr miss ↦ miss
      ]

  -- Where no two entries under one key have the same limits, so it is after a successful `insert`.
  -- The comparison of times is transitive.
  pub insert-AreDistinct :
      (names : Names) (file file' : CacheFile F) (group : ExecutionGroup F)
      (file_keys : HashMap ℕ ℕ) (results : List (ExecutionResult F))
      → All (λ p. AreDistinct p.1) file.entries
      → insert names file group file_keys results ≡ some file'
      → All (λ p. AreDistinct p.1) file'.entries
  unfolding insert
  insert-AreDistinct names file file' group keys results h made =
      let (key, e1, h1) = >>=-eq-some (key_of_group names group keys) _ made in
      let (entry, e2, h2) = >>=-eq-some (entry_of_group group keys results) _ h1 in
      subst (λ (f : CacheFile F). All (λ p. AreDistinct p.1) f.entries) (some-injective _ _ h2)
        (HashMap.All-insert (λ p. AreDistinct p.1) key _ file.entries
          (put_entry-AreDistinct entry _ (
            or_empty_lem (HashMap.get key file.entries)
              (λ set at. HashMap.All-get (λ p. AreDistinct p.1) key set file.entries h at)))
          h)
    where
      or_empty_lem :
          (o : Option (List (CacheEntry F)))
          → ((set : List (CacheEntry F)) → o ≡ some set → AreDistinct set)
          → AreDistinct (or_empty o)
      or_empty_lem none k = tt
      or_empty_lem (some set) k = k set refl

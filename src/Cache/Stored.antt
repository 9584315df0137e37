-- ===== src/Cache/Stored.antt =====
-- The outputs, in the file store, of an entry that `Cache::insert` of task-maker-cache/src/lib.rs
-- makes.
use task_maker_rust.Base.{
  ℕ, ap, ◌≡◌, refl, ◌∙◌, inl, inr, subst, String, true, some, List, [], ◌∷◌, ◌++◌, All, arith,
  is_some,
}
use mathlib.Core.Option.{some-injective}
use task_maker_rust.Base.Options.{◌>>=◌, >>=-eq-some, map_all}
use task_maker_rust.Base.Tests.{nat_eq, string_eq, Option-cases}
use task_maker_rust.Base.HashMap
use task_maker_rust.Base.HashMap.{HashMap, values}
use task_maker_rust.Dag.Execution.{
  Execution, ExecutionOutputBehaviour, capture, ExecutionResult, File,
}
use task_maker_rust.Dag.Group.{captured, exec_outputs, outputs_of}
use task_maker_rust.Cache.Key.{cache_key_eq}
use task_maker_rust.Cache.Entry.{
  CacheEntryItem, FileStore, captured_key, output_key, item_of_execution, items_of_executions,
  add_captured, add_output_files, add_outputs, add_all_outputs,
}
use task_maker_rust.Scheduler.Soundness.Invariant.{HasHandle}

pub All-append_inv {ℓ κ} :
    {A : Type ℓ} (P : A → Type κ) (xs ys : List A) → All P (xs ++ ys) → All P xs × All P ys
All-append_inv P [] ys h = (tt, h)
All-append_inv P (x ∷ xs) ys h = let rest = All-append_inv P xs ys h.1 in ((h.0, rest.0), rest.1)

module _ (file_store : FileStore) (file_keys : HashMap ℕ ℕ) where
  -- The file of every handle is in the store.
  abbrev pub IsStored : Type 0
  IsStored =
      (file key : ℕ)
      → HashMap.get file file_keys ≡ some key
      → (handle : ℕ) × (file_store.get key ≡ some handle)

  add_captured_total :
      (b : ExecutionOutputBehaviour) (outs : HashMap ℕ ℕ)
      → IsStored
      → All (HasHandle file_keys) (captured b)
      → (o : HashMap ℕ ℕ) × (add_captured file_store b (captured_key file_keys b) outs ≡ some o)
  unfolding add_captured captured_key captured
  add_captured_total (capture file limit) outs stored h =
      elim (Option-cases (HashMap.get file.uuid file_keys)) [
        | inl gone ↦ absurd (ground (arith, gone, h.0))
        | inr (key, e) ↦
            let (handle, there) = stored file.uuid key e in
            (HashMap.insert file.uuid handle outs, rw (e, there) refl)
      ]
  add_captured_total _ outs stored h = (outs, refl)

  -- The keys that are stored for the output files: all in the store, one for each path.
  record IsKeys (files : HashMap String File) (keys : HashMap String ℕ) : Type 0 where
    found : All (λ p. HashMap.contains_key p.0 keys ≡ true) files
    there : All (λ p. is_some (file_store.get p.1) ≡ true) keys

  contains_key-cons :
      (path : String) (key : ℕ) (files : HashMap String File) (keys : HashMap String ℕ)
      → All (λ p. HashMap.contains_key p.0 keys ≡ true) files
      → All (λ p. HashMap.contains_key p.0 ((path, key) ∷ keys) ≡ true) files
  unfolding HashMap.get
  contains_key-cons path key [] keys h = tt
  contains_key-cons path key ((q, f) ∷ files) keys h =
      (ground (arith, h.0), contains_key-cons path key files keys h.1)

  IsKeys-map_all :
      (files : HashMap String File) (keys : HashMap String ℕ)
      → IsStored
      → map_all (output_key file_keys) files ≡ some keys
      → IsKeys files keys
  unfolding map_all output_key HashMap.get
  IsKeys-map_all [] keys stored h =
      subst (IsKeys []) (some-injective _ _ h) (record { found = tt; there = tt })
  IsKeys-map_all ((path, file) ∷ files) keys stored h =
      let (p, e1, h1) = >>=-eq-some (output_key file_keys (path, file)) _ h in
      let (ks, e2, h2) = >>=-eq-some (map_all (output_key file_keys) files) _ h1 in
      let (key, e3, h3) = >>=-eq-some (HashMap.get file.uuid file_keys) _ e1 in
      let (handle, at) = stored file.uuid key e3 in
      let rest = IsKeys-map_all files ks stored e2 in
      subst (IsKeys ((path, file) ∷ files))
        (ap (λ q. q ∷ ks) (some-injective _ _ h3) ∙ some-injective _ _ h2)
        (record {
          found = (
            ground (arith, string_eq.beq_iff path path),
            contains_key-cons path key files ks rest.found,
          );
          there = (rw at refl, rest.there);
        })

  add_output_files_total :
      (files : HashMap String File) (keys : HashMap String ℕ) (outs : HashMap ℕ ℕ)
      → IsKeys files keys
      → (o : HashMap ℕ ℕ) × (add_output_files file_store files keys outs ≡ some o)
  unfolding add_output_files
  add_output_files_total [] keys outs h = (outs, refl)
  add_output_files_total ((path, file) ∷ files) keys outs h =
      elim (Option-cases (HashMap.get path keys)) [
        | inl gone ↦ absurd (ground (arith, gone, (h.found).0))
        | inr (key, e) ↦ elim (Option-cases (file_store.get key)) [
          | inl lost ↦ absurd (
              ground (
                arith,
                lost,
                HashMap.All-get (λ p. is_some (file_store.get p.1) ≡ true) path key keys h.there e,
              ))
          | inr (handle, at) ↦
              let (o, rest) =
                add_output_files_total files keys (HashMap.insert file.uuid handle outs)
                  (record { found = (h.found).1; there = h.there }) in
              (o, rw (e, at) rest)
        ]
      ]

  module _ {F : Type 0} where
    add_outputs_total :
        (exec : Execution F) (result : ExecutionResult F) (item : CacheEntryItem F)
        (outs : HashMap ℕ ℕ)
        → IsStored
        → All (HasHandle file_keys) (exec_outputs exec)
        → item_of_execution exec file_keys result ≡ some item
        → (o : HashMap ℕ ℕ) × (add_outputs file_store exec item outs ≡ some o)
    unfolding add_outputs item_of_execution exec_outputs
    add_outputs_total exec result item outs stored h made =
        let (keys, e, rest) =
          >>=-eq-some (map_all (output_key file_keys) exec.output_files) _ made in
        let item_eq = some-injective _ _ rest in
        let outer =
          All-append_inv (HasHandle file_keys) (captured exec.stdout ++ captured exec.stderr) _ h in
        let inner =
          All-append_inv (HasHandle file_keys) (captured exec.stdout) (captured exec.stderr)
            outer.0 in
        let (o1, p1) = add_captured_total exec.stdout outs stored inner.0 in
        let (o2, p2) = add_captured_total exec.stderr o1 stored inner.1 in
        let (o3, p3) =
          add_output_files_total exec.output_files keys o2
            (IsKeys-map_all exec.output_files keys stored e) in
        (
          o3,
          subst
              (λ (i : CacheEntryItem F).
                (add_captured file_store exec.stdout i.stdout outs >>= λ a.
                add_captured file_store exec.stderr i.stderr a >>= λ b.
                add_output_files file_store exec.output_files i.outputs b)
                ≡ some o3)
              item_eq (rw (p1, p2) p3),
        )

    pub add_all_outputs_total :
        (execs : List (Execution F)) (results : List (ExecutionResult F))
        (items : List (CacheEntryItem F)) (outs : HashMap ℕ ℕ)
        → IsStored
        → All (HasHandle file_keys) (outputs_of execs)
        → items_of_executions execs file_keys results ≡ some items
        → (o : HashMap ℕ ℕ) × (add_all_outputs file_store execs items outs ≡ some o)
    unfolding add_all_outputs items_of_executions outputs_of
    add_all_outputs_total [] results items outs stored h made = (outs, refl)
    add_all_outputs_total (e ∷ es) [] items outs stored h made =
        subst (λ is. (o : HashMap ℕ ℕ) × (add_all_outputs file_store (e ∷ es) is outs ≡ some o))
          (some-injective _ _ made) (outs, refl)
    add_all_outputs_total (e ∷ es) (r ∷ rs) items outs stored h made =
        let (item, e1, h1) = >>=-eq-some (item_of_execution e file_keys r) _ made in
        let (rest, e2, h2) = >>=-eq-some (items_of_executions es file_keys rs) _ h1 in
        let parts = All-append_inv (HasHandle file_keys) (exec_outputs e) (outputs_of es) h in
        let (o1, p1) = add_outputs_total e r item outs stored parts.0 e1 in
        let (o2, p2) = add_all_outputs_total es rs rest o1 stored parts.1 e2 in
        subst (λ is. (o : HashMap ℕ ℕ) × (add_all_outputs file_store (e ∷ es) is outs ≡ some o))
          (some-injective _ _ h2) (o2, rw p1 p2)

-- ===== src/Cache/Gained.antt =====
-- The handles that `CacheEntry::outputs` of task-maker-cache/src/entry.rs collects.
use task_maker_rust.Base.{
  ℕ, ◌≡◌, ap, subst, String, Option, some, List, [], ◌∷◌, ◌++◌, All, length, map, arith, is_some,
}
use mathlib.Core.Option.{some-injective}
use task_maker_rust.Base.Options.{>>=-eq-some}
use task_maker_rust.Base.Tests.{nat_eq, string_eq}
use task_maker_rust.Base.HashMap
use task_maker_rust.Base.HashMap.{HashMap, values}
use task_maker_rust.Dag.Execution.{Execution, ExecutionOutputBehaviour, capture, File}
use task_maker_rust.Dag.Group.{captured, exec_outputs, outputs_of}
use task_maker_rust.Cache.Key.{cache_key_eq}
use task_maker_rust.Cache.Entry.{
  CacheEntryItem, FileStore, add_captured, add_output_files, add_outputs, add_all_outputs,
}
use task_maker_rust.Scheduler.Soundness.Invariant.{HasHandle}

-- The files got handles, and none is lost.
abbrev pub Gains : HashMap ℕ ℕ → HashMap ℕ ℕ → List ℕ → Type 0
Gains old new files = All (HasHandle new) files × ((f : ℕ) → HasHandle old f → HasHandle new f)

Gains-trans :
    (a b c : HashMap ℕ ℕ) (xs ys : List ℕ) → Gains a b xs → Gains b c ys → Gains a c (xs ++ ys)
Gains-trans a b c [] ys (got, kept) (more, still) = (more, λ f h. still f (kept f h))
Gains-trans a b c (x ∷ xs) ys ((here, rest), kept) (more, still) =
    let (got, all) = Gains-trans a b c xs ys (rest, kept) (more, still) in
    ((still x here, got), all)

Gains-insert :
    (f handle : ℕ) (outs : HashMap ℕ ℕ) → Gains outs (HashMap.insert f handle outs) (f ∷ [])
Gains-insert f handle outs = (
  (ap is_some (HashMap.get-insert_self f handle outs), tt),
  λ g h. HashMap.contains_key-insert f g handle outs h,
)

module _ (file_store : FileStore) where
  add_captured-Gains :
      (b : ExecutionOutputBehaviour) (key : Option ℕ) (outs new : HashMap ℕ ℕ)
      → add_captured file_store b key outs ≡ some new
      → Gains outs new (captured b)
  unfolding add_captured captured
  add_captured-Gains (capture file limit) key outs new h =
      let (k, e1, h1) = >>=-eq-some key _ h in
      let (handle, e2, h2) = >>=-eq-some (file_store.get k) _ h1 in
      subst (λ o. Gains outs o (file.uuid ∷ [])) (some-injective _ _ h2)
        (Gains-insert file.uuid handle outs)
  add_captured-Gains _ key outs new h =
      subst (λ o. Gains outs o []) (some-injective _ _ h) (tt, λ f k. k)

  add_output_files-Gains :
      (files : HashMap String File) (keys : HashMap String ℕ) (outs new : HashMap ℕ ℕ)
      → add_output_files file_store files keys outs ≡ some new
      → Gains outs new (map (λ f. f.uuid) (values files))
  unfolding add_output_files
  add_output_files-Gains [] keys outs new h =
      subst (λ o. Gains outs o []) (some-injective _ _ h) (tt, λ f k. k)
  add_output_files-Gains ((path, file) ∷ files) keys outs new h =
      let (k, e1, h1) = >>=-eq-some (HashMap.get path keys) _ h in
      let (handle, e2, h2) = >>=-eq-some (file_store.get k) _ h1 in
      Gains-trans outs (HashMap.insert file.uuid handle outs) new (file.uuid ∷ [])
        (map (λ f. f.uuid) (values files)) (Gains-insert file.uuid handle outs)
        (add_output_files-Gains files keys (HashMap.insert file.uuid handle outs) new h2)

  module _ {F : Type 0} where
    add_outputs-Gains :
        (exec : Execution F) (item : CacheEntryItem F) (outs new : HashMap ℕ ℕ)
        → add_outputs file_store exec item outs ≡ some new
        → Gains outs new (exec_outputs exec)
    unfolding add_outputs exec_outputs
    add_outputs-Gains exec item outs new h =
        let (o1, e1, h1) = >>=-eq-some (add_captured file_store exec.stdout item.stdout outs) _ h in
        let (o2, e2, h2) = >>=-eq-some (add_captured file_store exec.stderr item.stderr o1) _ h1 in
        Gains-trans outs o2 new (captured exec.stdout ++ captured exec.stderr)
          (map (λ f. f.uuid) (values exec.output_files))
          (Gains-trans outs o1 o2 (captured exec.stdout) (captured exec.stderr)
            (add_captured-Gains exec.stdout item.stdout outs o1 e1)
            (add_captured-Gains exec.stderr item.stderr o1 o2 e2))
          (add_output_files-Gains exec.output_files item.outputs o2 new h2)

    pub add_all_outputs-Gains :
        (execs : List (Execution F)) (items : List (CacheEntryItem F)) (outs new : HashMap ℕ ℕ)
        → length execs ≡ length items
        → add_all_outputs file_store execs items outs ≡ some new
        → Gains outs new (outputs_of execs)
    unfolding add_all_outputs outputs_of
    add_all_outputs-Gains [] items outs new each h =
        subst (λ o. Gains outs o []) (some-injective _ _ h) (tt, λ f k. k)
    add_all_outputs-Gains (e ∷ es) [] outs new each h = absurd (omega (arith, each))
    add_all_outputs-Gains (e ∷ es) (i ∷ is) outs new each h =
        let (o, e1, h1) = >>=-eq-some (add_outputs file_store e i outs) _ h in
        Gains-trans outs o new (exec_outputs e) (outputs_of es) (add_outputs-Gains e i outs o e1)
          (add_all_outputs-Gains es is o new (omega (arith, each)) h1)

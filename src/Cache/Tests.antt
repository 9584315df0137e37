-- ===== src/Cache/Tests.antt =====
-- The cache on the generator of the sample DAG: what is inserted, what is answered, and the theorems
-- at these inputs.
use task_maker_rust.Base.{ℕ, ◌≡◌, refl, true, false, none, some, List, [], ◌∷◌, All, arith}
use task_maker_rust.Base.Tests.{nat_beq, nat_beq_iff}
use task_maker_rust.Base.Options.{map_all}
use task_maker_rust.Base.HashMap
use task_maker_rust.Base.HashMap.{HashMap}
use task_maker_rust.Samples.{generator, result_of, failed_result, seconds}
use task_maker_rust.Dag.Execution.{ExecutionResult, is_success, status, system}
use task_maker_rust.Dag.Limits.{default_limits}
use task_maker_rust.Base.Discrete.{String_discrete}
use task_maker_rust.Dag.Group.{captured, exec_outputs, outputs_of, outputs}
use task_maker_rust.Cache.Key.{
  CacheKey-discrete, cache_key_eq, Names, CacheKey, fifo_names, rename_arg, key_args, stdin_key,
  input_key, key_item, key_of_group,
}
use task_maker_rust.Cache.Entry.{
  CacheEntry, FileStore, captured_key, output_key, item_of_execution, items_of_executions,
  entry_of_group, add_captured, add_output_files, add_outputs, add_all_outputs, entry_outputs,
}
use task_maker_rust.Base.Words.{add64, sub64}
use task_maker_rust.Cache.Compatible.{
  limits_beq, option_beq, list_beq, bool_beq, same_item_limits, same_limits, check_limits,
  check_limit, check_dirs, is_superset, compatible_item, compatible_items, is_compatible,
}
use task_maker_rust.Cache.Query.{
  CacheFile, stored_content, put_entry, replay_item, replay, find_entry, insert, get,
}
use task_maker_rust.Cache.Limits.{FloatLaws}
use task_maker_rust.Cache.RoundTrip.{HasBounds, get-insert}
use task_maker_rust.Cache.Stored.{IsStored}
use task_maker_rust.Cache.Distinct.{AreDistinct, insert-AreDistinct}
use task_maker_rust.Scheduler.State.{miss, hit}
use task_maker_rust.Scheduler.Completion.{all_success}

-- Nothing to sort or to name in the sample.
abbrev names : Names
names = record {
  sort_inputs = λ inputs. inputs;
  sort_env = λ env. env;
  sandbox_path = λ fifo. "fifo";
  fifo_name = λ i. "tm_fifo_0";
}

-- A store that has the file of every key, each under its own key.
abbrev whole_store : FileStore
whole_store = record { get = λ key. some key; read = λ handle. some (handle ∷ []) }

abbrev empty_file : CacheFile ℕ
empty_file = record { entries = []; dirty = false }

-- The captured output of the generator has the key 100.
abbrev file_keys : HashMap ℕ ℕ
file_keys = (10, 100) ∷ []

program : Unit {0}
unfolding map_all HashMap.get HashMap.insert is_success status captured exec_outputs outputs_of
    outputs fifo_names rename_arg key_args stdin_key input_key key_item key_of_group captured_key
    output_key item_of_execution items_of_executions entry_of_group add_captured add_output_files
    add_outputs add_all_outputs entry_outputs CacheKey-discrete String_discrete add64 sub64
    check_limit check_dirs check_limits is_superset compatible_item compatible_items is_compatible
    stored_content put_entry replay_item replay find_entry insert get all_success
program = tt

abbrev key : CacheKey
key = record {
  items = record { command = system "true"; args = []; stdin = none; inputs = []; env = [] } ∷ [];
}

-- The entry of a run with the given result.
abbrev entry_for : ExecutionResult ℕ → CacheEntry ℕ
entry_for result = record {
  items =
      record {
        result = result;
        limits = default_limits ℕ;
        stdout = some 100;
        stderr = none;
        outputs = [];
      }
      ∷ [];
  extra_time = 1;
  extra_memory = 8192;
}

abbrev file_for : ExecutionResult ℕ → CacheFile ℕ
file_for result = record { entries = (key, entry_for result ∷ []) ∷ []; dirty = true }

inserted : insert names empty_file generator file_keys (result_of ∷ []) ≡ some (file_for result_of)
unfolding program
inserted = refl

-- The second run with the same limits replaces the first.
inserted_again :
    insert names (file_for failed_result) generator file_keys (result_of ∷ [])
    ≡ some (file_for result_of)
unfolding program limits_beq option_beq list_beq bool_beq same_item_limits same_limits
    default_limits
inserted_again = refl

abbrev answer : ExecutionResult ℕ
answer = record result_of { was_cached = true; stdout = some (100 ∷ []) }

answered :
    get names whole_store (file_for result_of) generator file_keys
    ≡ some (hit (answer ∷ []) ((10, 100) ∷ []))
unfolding program default_limits
answered = refl

-- Without the file of the captured output there is no answer.
unanswered :
    get names
      (record { get = λ k. none; read = λ handle. none })
      (file_for result_of)
      generator
      file_keys
    ≡ some miss
unfolding program default_limits
unanswered = refl

seconds-FloatLaws : FloatLaws seconds
seconds-FloatLaws = record {
  gt_irrefl = λ a. ground arith;
  gt_trans = λ a b c h k. ground arith;
  add-sub_self = λ a b x. ground arith;
}

seconds_trans : (a b c : ℕ) → nat_beq a b ≡ true → nat_beq b c ≡ true → nat_beq a c ≡ true
seconds_trans a b c p q = ground (arith, nat_beq_iff a b, nat_beq_iff b c, nat_beq_iff a c)

stored : IsStored whole_store file_keys
stored file k h = (k, refl)

bounds : HasBounds seconds-FloatLaws generator
unfolding default_limits
bounds = record { extra = omega arith; memory = (λ m e. cc, tt) }

get-insert_example :
    (results : List (ExecutionResult ℕ)) × (outs : HashMap ℕ ℕ) × (get names whole_store
        (file_for result_of)
        generator
        file_keys
      ≡ some (hit results outs))
unfolding program default_limits
get-insert_example =
    get-insert seconds-FloatLaws names whole_store empty_file (file_for result_of) generator
      file_keys (result_of ∷ []) stored (refl, tt) bounds refl

insert-AreDistinct_example : All (λ p. AreDistinct seconds_trans p.1) (file_for result_of).entries
unfolding program
insert-AreDistinct_example =
    insert-AreDistinct seconds_trans names empty_file (file_for result_of) generator file_keys
      (result_of ∷ []) tt refl

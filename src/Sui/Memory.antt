-- ===== src/Sui/Memory.antt =====
-- Execution in memory: `execute_transaction_in_memory` and `create_in_memory_store` of
-- codes/sui/modified/sui-single-node-benchmark/src/single_node.rs, and
-- `execute_transactions_in_memory` of .../src/benchmark_context.rs. All tasks share one store.
use test_suites.Prelude.{ℕ, ◌≡◌, Bool, true, false, Option, List, [], ◌∷◌, if◌then◌else◌}
use test_suites.Prelude.Maps.{Dict, insert}
use test_suites.Prelude.Outcome.{Outcome, returns, panics, ◌>>=◌, ◌>>◌, unwrap, ensure}
use test_suites.Prelude.Attempt.{Attempt, ok, err, panicked}
use test_suites.Sui.Effects.{TransactionEffects}
use test_suites.Sui.Node.{Validator, run_tasks}
use test_suites.Sui.Store.{
  ObjectApi, InputObjectKind, InnerTemporaryStore, InMemoryObjectStore, new,
  read_objects_for_execution, commit_objects,
}

-- `unwrap` on a result.
abbrev pub unwrap_result : {E A : Type 0} → Attempt E A → Outcome A
unwrap_result (ok a) = returns a
unwrap_result (err e) = panics
unwrap_result panicked = panics

pub data LiveObject (O : Type 0) : Type 0 where
  normal : ℕ → O → LiveObject O
  wrapped : LiveObject O

-- The transactions' data, the checks on their inputs and the executor, which belong to other
-- crates. The effects name their transaction.
pub record Executor (v : Validator) (api : ObjectApi) : Type 1 where
  pub Inputs : Type 0
  pub digest : v.Certificate → ℕ
  pub input_objects : v.Certificate → Option (List InputObjectKind)
  pub shared_locks : v.Certificate → Attempt api.SuiError (List (ℕ × ℕ))
  pub check_certificate_input : v.Certificate → List (InputObjectKind × api.Object) → Option Inputs
  pub execute_transaction_to_effects :
      InMemoryObjectStore api
      → v.Certificate
      → Inputs
      → InnerTemporaryStore api.Object × TransactionEffects × InMemoryObjectStore api
  pub transaction_digest-execute :
      (store : InMemoryObjectStore api) (cert : v.Certificate) (inputs : Inputs)
      → (execute_transaction_to_effects store cert inputs).1.transaction_digest ≡ digest cert
  pub iter_live_object_set : v.Node → List (LiveObject api.Object)

unfoldable pub collect_objects : {O : Type 0} → List (LiveObject O) → Dict O → Outcome (Dict O)
collect_objects [] objects = returns objects
collect_objects (normal id object ∷ rest) objects = collect_objects rest (insert id object objects)
collect_objects (wrapped ∷ rest) objects = panics

module _ (v : Validator) (api : ObjectApi) (x : Executor v api)
    (schedule : (T : Type 0) → List T → List T) where
  unfoldable pub create_in_memory_store : v.Node → Outcome (InMemoryObjectStore api)
  unfolding collect_objects new
  create_in_memory_store node = do
    objects ← collect_objects (x.iter_live_object_set node) []
    returns (new api objects)

  unfoldable pub execute_transaction_in_memory :
      InMemoryObjectStore api
      → v.Certificate
      → Outcome (TransactionEffects × InMemoryObjectStore api)
  unfolding read_objects_for_execution commit_objects
  execute_transaction_in_memory store cert = do
    kinds ← unwrap (x.input_objects cert)
    let (read, store₁) = read_objects_for_execution api (x.shared_locks cert) store kinds
    objects ← unwrap_result read
    inputs ← unwrap (x.check_certificate_input cert objects)
    let (inner_temp_store, effects, store₂) = x.execute_transaction_to_effects store₁ cert inputs
    ensure effects.is_ok
    returns (effects, commit_objects api store₂ inner_temp_store)

  abbrev pub has_shared_object : List v.Certificate → Bool
  has_shared_object [] = false
  has_shared_object (cert ∷ rest) =
      if v.contains_shared_object cert then true else has_shared_object rest

  -- With a shared object anywhere the transactions run in their order, otherwise as tasks.
  unfoldable pub execute_transactions_in_memory :
      InMemoryObjectStore api
      → List v.Certificate
      → Outcome (List TransactionEffects × InMemoryObjectStore api)
  unfolding execute_transaction_in_memory run_tasks
  execute_transactions_in_memory store certs =
      run_tasks execute_transaction_in_memory store
        (if has_shared_object certs then certs else schedule v.Certificate certs)

-- ===== src/Sui/Driver.antt =====
-- `run_benchmark` (codes/sui/modified/sui-single-node-benchmark/src/lib.rs), from the context and
-- the generated transactions on, and the benchmarks of `BenchmarkContext`
-- (.../src/benchmark_context.rs) that it chooses from. Times and logs are left out.
pub mod Checkpointed
mod Tests
use test_suites.Prelude.{
  ℕ, Bool, true, false, not, Option, some, none, List, [], ◌∷◌, map, is_empty,
}
use test_suites.Prelude.Maps.{Dict, insert}
use test_suites.Prelude.Outcome.{Outcome, returns, panics, ◌>>=◌, ◌>>◌, unwrap, ensure}
use test_suites.Sui.Effects.{TransactionEffects}
use test_suites.Sui.Node.{
  Validator, Component, txn_signing, checkpoint_executor, execution_only, execute_raw_transaction,
  assigned_shared_object_versions,
}
use test_suites.Sui.Context.{Call}
use test_suites.Sui.Store.{ObjectApi, InMemoryObjectStore}
use test_suites.Sui.Checkpoints.{Builder, build_checkpoints}
use test_suites.Sui.Memory.{Executor, create_in_memory_store, execute_transactions_in_memory}
use test_suites.Sui.Kitty.{
  certify_transactions, benchmark_transaction_signing, execute_certificates,
}

module _ (v : Validator) (api : ObjectApi) (x : Executor v api)
    (schedule : (T : Type 0) → List T → List T) (b : Builder)
    (as_transaction : v.Certificate → b.Transaction)
    (as_effects : TransactionEffects → b.Effects) where
  -- The effects by the digests of their transactions.
  unfoldable pub by_digest : List TransactionEffects → Dict b.Effects → Dict b.Effects
  by_digest [] effects = effects
  by_digest (e ∷ rest) effects = by_digest rest (insert e.transaction_digest (as_effects e) effects)

  -- All transactions are executed in memory, and checkpoints are built of them.
  unfoldable pub execute_and_build :
      b.State → ℕ → InMemoryObjectStore api → List v.Certificate → Outcome (List b.Checkpoint)
  unfolding execute_transactions_in_memory by_digest build_checkpoints
  execute_and_build builder checkpoint_size store certs = do
    (results, store') ← execute_transactions_in_memory v api x schedule store certs
    build_checkpoints b builder (map as_transaction certs) (by_digest results []) checkpoint_size

  unfoldable pub execute_sample_transaction : v.Node → v.Certificate → Outcome v.Node
  unfolding execute_raw_transaction
  execute_sample_transaction node cert = do
    (effects, node') ← execute_raw_transaction v node (v.into_unsigned cert)
    ensure effects.is_ok
    returns node'

  -- `remove(0)` where a sample is wanted, and its execution.
  unfoldable pub take_sample :
      Bool → v.Node → List v.Certificate → Outcome (List v.Certificate × v.Node)
  unfolding execute_sample_transaction
  take_sample false node certs = returns (certs, node)
  take_sample true node [] = panics
  take_sample true node (cert ∷ rest) = do
    node' ← execute_sample_transaction node cert
    returns (rest, node')

  -- The node takes in each checkpoint and executes them all: both are other crates'.
  module _ (latest : v.Node → b.State) (insert_checkpoint : v.Node → b.Checkpoint → Option v.Node)
      (run_epoch : v.Node → List b.Checkpoint → v.Node)
      (generate_tx : Call → Outcome v.Transaction) where
    unfoldable pub insert_checkpoints : v.Node → List b.Checkpoint → Outcome v.Node
    insert_checkpoints node [] = returns node
    insert_checkpoints node (checkpoint ∷ rest) = do
      node' ← unwrap (insert_checkpoint node checkpoint)
      insert_checkpoints node' rest

    -- The last checkpoint bounds the run, so there must be one.
    unfoldable pub benchmark_checkpoint_executor : v.Node → List v.Certificate → ℕ → Outcome v.Node
    unfolding take_sample create_in_memory_store execute_and_build insert_checkpoints
    benchmark_checkpoint_executor node certs checkpoint_size = do
      (rest, node₁) ← take_sample true node certs
      store ← create_in_memory_store v api x schedule node₁
      checkpoints ← execute_and_build (latest node₁) checkpoint_size store rest
      ensure (not (is_empty checkpoints))
      node₂ ← insert_checkpoints node₁ checkpoints
      returns (run_epoch node₂ checkpoints)

    unfoldable pub benchmark_transaction_execution :
        Component → v.Node → List v.Certificate → Bool → Outcome v.Node
    unfolding take_sample execute_certificates
    benchmark_transaction_execution component node certs print_sample_tx = do
      (rest, node₁) ← take_sample print_sample_tx node certs
      (results, node₂) ← execute_certificates v generate_tx schedule component node₁ rest
      returns node₂

    unfoldable pub benchmark_transaction_execution_in_memory :
        v.Node → List v.Certificate → Bool → Outcome v.Node
    unfolding take_sample create_in_memory_store execute_transactions_in_memory
    benchmark_transaction_execution_in_memory node certs print_sample_tx = do
      (rest, node₁) ← take_sample print_sample_tx node certs
      store ← create_in_memory_store v api x schedule node₁
      (results, store') ← execute_transactions_in_memory v api x schedule store rest
      returns node₁

    -- The benchmark that a component is for.
    unfoldable pub benchmark : Component → ℕ → Bool → v.Node → List v.Certificate → Outcome v.Node
    unfolding benchmark_checkpoint_executor benchmark_transaction_execution_in_memory
        benchmark_transaction_execution
    benchmark checkpoint_executor checkpoint_size print_sample_tx node certs =
        benchmark_checkpoint_executor node certs checkpoint_size
    benchmark execution_only checkpoint_size print_sample_tx node certs =
        benchmark_transaction_execution_in_memory node certs print_sample_tx
    benchmark component checkpoint_size print_sample_tx node certs =
        benchmark_transaction_execution component node certs print_sample_tx

    unfoldable pub run_benchmark :
        Component → ℕ → Bool → Bool → v.Node → List v.Transaction → Outcome v.Node
    unfolding benchmark benchmark_transaction_signing certify_transactions
        assigned_shared_object_versions
    run_benchmark txn_signing checkpoint_size print_sample_tx skip_signing node txs =
        benchmark_transaction_signing v generate_tx schedule print_sample_tx node txs
    run_benchmark component checkpoint_size print_sample_tx skip_signing node txs = do
      (certs, node₁) ← certify_transactions v generate_tx schedule skip_signing node txs
      node₂ ← assigned_shared_object_versions v node₁ certs
      benchmark component checkpoint_size print_sample_tx node₂ certs

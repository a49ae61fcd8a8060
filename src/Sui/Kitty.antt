-- ===== src/Sui/Kitty.antt =====
-- `run_kitty_test` (codes/sui/modified/sui-single-node-benchmark/src/lib.rs), from the context and
-- the generator on, and the tasks of `BenchmarkContext` that it uses
-- (.../src/benchmark_context.rs). Times and logs are left out.
pub mod Breeding
pub mod Components
mod Tests
use test_suites.Prelude.{
  ℕ, Bool, true, false, Option, some, none, List, [], ◌∷◌, is_empty, not, if◌then◌else◌, ◌||◌,
}
use test_suites.Prelude.Maps.{Dict}
use test_suites.Prelude.Outcome.{Outcome, returns, panics, ◌>>=◌, ◌>>◌, unwrap, ensure}
use test_suites.Sui.Accounts.{ObjectRef}
use test_suites.Sui.Effects.{TransactionEffects, first_owned_besides}
use test_suites.Sui.Node.{
  Validator, Component, txn_signing, execute_certificate, sign_transaction,
  assigned_shared_object_versions, run_tasks, commit_all,
}
use test_suites.Sui.Context.{
  BenchmarkContext, Call, generate_kitty_provide_gene_transactions,
  generate_kitty_breed_transactions,
}
use test_suites.Sui.Preparations.{collect_by, collect_owned_objects, refresh_from}

-- The mutated object, not the gas, that an address owns.
unfoldable pub mutated_of : TransactionEffects → Option (ℕ × ObjectRef)
unfolding first_owned_besides
mutated_of e = first_owned_besides e.gas_object e.mutated

unfoldable pub collect_new_kitties : List TransactionEffects → Outcome (Dict ObjectRef)
unfolding collect_by mutated_of
collect_new_kitties results = collect_by mutated_of results []

-- From the effects of the transactions that provide the genes to the calls that breed.
unfoldable pub breeding_calls :
    BenchmarkContext → List TransactionEffects → Outcome (List Call × BenchmarkContext)
unfolding collect_owned_objects collect_new_kitties refresh_from generate_kitty_breed_transactions
breeding_calls ctx results = do
  gene_objects ← collect_owned_objects results
  new_kitty_objects ← collect_new_kitties results
  calls ←
      generate_kitty_breed_transactions (refresh_from ctx results) gene_objects new_kitty_objects
  returns (calls, refresh_from ctx results)

abbrev pub is_signing : Component → Bool
is_signing txn_signing = true
is_signing component = false

module _ (v : Validator) (generate_tx : Call → Outcome v.Transaction)
    (schedule : (T : Type 0) → List T → List T) where
  open v use {Node, Transaction, Certificate, Response}

  -- A task that generates and signs one transaction.
  unfoldable pub generate : Node → Call → Outcome (Transaction × Node)
  generate node call = do tx ← generate_tx call; returns (tx, node)

  unfoldable pub generated : Node → List Call → Outcome (List Transaction × Node)
  unfolding run_tasks generate
  generated node calls = run_tasks generate node (schedule Call calls)

  -- A task of `certify_transactions`.
  unfoldable pub certify : Bool → Node → Transaction → Outcome (Certificate × Node)
  certify true node tx = do
    cert ← unwrap (v.new_certificate node tx (v.sign node tx))
    returns (cert, node)
  certify false node tx = do
    (signed, node') ← unwrap (v.handle_transaction node tx)
    cert ← unwrap (v.new_certificate node' tx signed)
    returns (cert, node')

  unfoldable pub certify_transactions :
      Bool → Node → List Transaction → Outcome (List Certificate × Node)
  unfolding run_tasks certify
  certify_transactions skip_signing node txs =
      run_tasks (certify skip_signing) node (schedule Transaction txs)

  unfoldable pub validator_sign_transactions :
      Node → List Transaction → Outcome (List Response × Node)
  unfolding run_tasks sign_transaction
  validator_sign_transactions node txs =
      run_tasks (sign_transaction v) node (schedule Transaction txs)

  -- A sample is the first transaction, and there is none to print where there are none.
  unfoldable pub benchmark_transaction_signing : Bool → Node → List Transaction → Outcome Node
  unfolding validator_sign_transactions
  benchmark_transaction_signing print_sample_tx node txs = do
    ensure (not print_sample_tx || not (is_empty txs))
    (responses, node') ← validator_sign_transactions node txs
    returns node'

  -- The certificates are executed through the component, one task for each.
  unfoldable pub execute_certificates :
      Component → Node → List Certificate → Outcome (List TransactionEffects × Node)
  unfolding run_tasks execute_certificate
  execute_certificates component node certs =
      run_tasks (execute_certificate v component) node (schedule Certificate certs)

  -- Certificates are made, the versions of shared objects assigned, and the transactions executed.
  unfoldable pub certify_and_execute :
      Component → Bool → Node → List Transaction → Outcome (List TransactionEffects × Node)
  unfolding certify_transactions assigned_shared_object_versions execute_certificates
  certify_and_execute component skip_signing node txs = do
    (certs, node₁) ← certify_transactions skip_signing node txs
    node₂ ← assigned_shared_object_versions v node₁ certs
    execute_certificates component node₂ certs

  -- After the transactions that provide the genes.
  unfoldable pub breed_after :
      Component
      → Bool
      → BenchmarkContext
      → Node
      → List TransactionEffects
      → Outcome (BenchmarkContext × Node)
  unfolding breeding_calls commit_all generated certify_and_execute
  breed_after component skip_signing ctx node results = do
    (calls, ctx') ← breeding_calls ctx results
    node₁ ← commit_all v node results
    (txs, node₂) ← generated node₁ calls
    (bred, node₃) ← certify_and_execute component skip_signing node₂ txs
    returns (ctx', node₃)

  unfoldable pub run_kitty_test :
      Component → Bool → Bool → BenchmarkContext → Node → Outcome (BenchmarkContext × Node)
  unfolding generate_kitty_provide_gene_transactions generated benchmark_transaction_signing
      certify_and_execute breed_after
  run_kitty_test component print_sample_tx skip_signing ctx node = do
    (txs, node₁) ← generated node (generate_kitty_provide_gene_transactions ctx)
    if is_signing component
        then (do
          node₂ ← benchmark_transaction_signing print_sample_tx node₁ txs
          returns (ctx, node₂))
        else (do
          (results, node₂) ← certify_and_execute component skip_signing node₁ txs
          breed_after component skip_signing ctx node₂ results)

-- ===== src/Sui/Generator.antt =====
-- `Workload::create_tx_generator` (codes/sui/modified/sui-single-node-benchmark/src/workload.rs).
-- The generator that publishes a package is made by other crates' compiler.
use test_suites.Prelude.{ℕ, List}
use test_suites.Prelude.Outcome.{Outcome, returns, ◌>>=◌}
use test_suites.Sui.Accounts.{Account, ObjectRef}
use test_suites.Sui.Node.{Validator}
use test_suites.Sui.Context.{BenchmarkContext}
use test_suites.Sui.Preparations.{
  MoveCall, publish_package, preparing_dynamic_fields, prepare_shared_objects,
  prepare_kitty_objects, prepare_land_objects,
}
use test_suites.Sui.MoveTx.{MoveTxGenerator}
use test_suites.Sui.Genesis.{Ptb, WorkloadKind, ptb, publish}

pub data TxGenerator (P : Type 0) : Type 0 where
  move_tx_generator : MoveTxGenerator → TxGenerator P
  package_publish_tx_generator : P → TxGenerator P

module _ (v : Validator) (build : MoveCall → v.Transaction)
    (schedule : (T : Type 0) → List T → List T) {P : Type 0}
    (publish_source : Account → ObjectRef → v.Transaction)
    (new_package_generator : BenchmarkContext
      → v.Node
      → ℕ
      → Outcome (P × BenchmarkContext × v.Node))
    (gene_id : Account → ℕ) where
  -- The package is published, and then the objects that the options ask for are prepared.
  unfoldable pub create_move_generator :
      Ptb → BenchmarkContext → v.Node → Outcome (MoveTxGenerator × BenchmarkContext × v.Node)
  unfolding publish_package preparing_dynamic_fields prepare_shared_objects prepare_kitty_objects
      prepare_land_objects
  create_move_generator options ctx node = do
    (move_package, ctx₁, node₁) ← publish_package v build schedule publish_source ctx node
    (root_objects, ctx₂, node₂) ←
        preparing_dynamic_fields v build schedule ctx₁ node₁ move_package.id
          options.num_dynamic_fields
    (shared_objects, ctx₃, node₃) ←
        prepare_shared_objects v build schedule ctx₂ node₂ move_package.id
          options.num_shared_objects
    (kitty_objects, ctx₄, node₄) ←
        prepare_kitty_objects v build schedule gene_id ctx₃ node₃ move_package.id options.test_kitty
    (land_objects, ctx₅, node₅) ←
        prepare_land_objects v build schedule ctx₄ node₄ move_package.id options.num_land_objects
    returns (
      record {
        num_transfers = options.num_transfers;
        use_native_transfer = options.use_native_transfer;
        computation = options.computation;
        root_objects = root_objects;
        shared_objects = shared_objects;
        erc20_transfer = options.erc20_transfer;
        kitty_objects = kitty_objects;
        land_objects = land_objects;
      },
      ctx₅,
      node₅,
    )

  unfoldable pub create_tx_generator :
      WorkloadKind → BenchmarkContext → v.Node → Outcome (TxGenerator P × BenchmarkContext × v.Node)
  unfolding create_move_generator
  create_tx_generator (ptb options) ctx node = do
    (generator, ctx', node') ← create_move_generator options ctx node
    returns (move_tx_generator generator, ctx', node')
  create_tx_generator (publish manifest_file) ctx node = do
    (generator, ctx', node') ← new_package_generator ctx node manifest_file
    returns (package_publish_tx_generator generator, ctx', node')

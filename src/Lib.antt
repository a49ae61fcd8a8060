-- ===== src/Lib.antt =====
-- The benchmarks of this repository run the same workloads on several blockchains. This library
-- models the Rust code of the Aptos and the Sui benchmark.
--
-- Parts and files. Paths are from the repository's root.
-- * codes/aptos/modified/block-executor/src/executor.rs is Block: Block/Environment is what the
--   executor uses of other crates (the VM, the outputs, the map, the gas limit, materialisation),
--   Block/Status its statuses and errors, Block/Delayed `apply_output_sequential`,
--   Block/Sequential `execute_transactions_sequential`, Block/Entry `execute_block` with the frame
--   of `execute_transactions_parallel`, and Block/Parallel `execute`, the speculative execution of
--   one transaction against the multi-version map, with its validation, an iteration of the loop of
--   commits (Block/Parallel/Commit) and the materialisation after it. The loop over the block in
--   sequential execution is a recursion on the transactions; its state is the map, the gas limit,
--   the outputs and the calls on the hook.
-- * codes/aptos/modified/e2e-tests/src/account_universe.rs with account_universe/universe.rs and
--   account_universe/peer_to_peer.rs is Universe: accounts and expected outcomes
--   (Universe/Account), the pickers (Universe/Picker), the universe (Universe/Population),
--   transfers (Universe/Transfer), the ranges of balances (Universe/Balances, whose loop takes fuel;
--   64 rounds are enough for a word) and the runs on a FakeExecutor (Universe/Assertions).
-- * codes/aptos/modified/e2e-tests/src/executor.rs is Fake: the state of `FakeExecutor` and its
--   accessors, Fake/Outputs `assert_outputs_equal`, Fake/Modes the execution of blocks in the modes,
--   Fake/Blocks blocks with metadata, Fake/Timing the timed runs and their median, and Fake/Sessions
--   single functions run by the Move VM.
-- * codes/aptos/modified/e2e-tests/src/common_transactions.rs is Transactions.
-- * codes/aptos/modified/aptos-transaction-benchmarks/src/simulator.rs is Simulator: it takes its
--   accounts from Universe, its transactions from Transactions, and runs them by a block executor
--   that is a parameter. Simulator/Generate has the loop, Simulator/Workloads the workloads and
--   Simulator/Erc20 the replay of a graph.
-- * codes/sui/modified/sui-single-node-benchmark/src is Sui: mock_storage.rs (Sui/Store),
--   mock_account.rs (Sui/Accounts), single_node.rs (Sui/Node for the calls of the validator,
--   Sui/Memory for execution in memory, Sui/Checkpoints), mock_consensus.rs (Sui/Consensus),
--   benchmark_context.rs (Sui/Genesis for its creation, Sui/Preparations, Sui/Context for the
--   generation of transactions, Sui/Driver for the benchmarks), tx_generator/move_tx_generator.rs
--   (Sui/MoveTx) and the generators that create objects (Sui/Preparations), workload.rs
--   (Sui/Genesis and Sui/Generator), and the two runs of lib.rs (Sui/Driver and Sui/Kitty). What the
--   benchmark reads of the effects of a transaction is Sui/Effects. A spawned task is one step; the
--   order in which the tasks of a batch finish is the parameter `schedule`. The clients and the task
--   of the fake consensus are a step relation.
-- Prelude has what the parts share.
--
-- Conventions. Arithmetic on 64-bit words wraps as in a release build (Prelude/Words). A
-- computation that may panic is an Outcome, and one that may also return an error an Attempt. Maps
-- keyed by addresses, ids and indexes are association lists. Every loop is a recursion on a list
-- or a number, so that no fuel is needed, unless
-- its file says so; the loop of commits, which its scheduler ends, is given by
-- its iteration. Code of other crates is a record of operations, with the
-- laws that a theorem uses; each such record is given concretely in the tests.
--
-- Not modelled: the worker threads of parallel execution with their scheduler, the proptest
-- strategies, runs of the VM and of the validator, command lines, files, timing and printing; the
-- upstream copy under codes/sui/original; and the code in other languages.
pub mod Prelude
pub mod Transactions
pub mod Universe
pub mod Block
pub mod Simulator
pub mod Sui
pub mod Fake

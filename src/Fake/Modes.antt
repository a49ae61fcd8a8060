-- ===== src/Fake/Modes.antt =====
-- The execution of blocks by `FakeExecutor` in its modes
-- (codes/aptos/modified/e2e-tests/src/executor.rs). An `Attempt` is the result of the VM, or a
-- panic; `parallel_enabled` says whether the environment has E2E_PARALLEL_EXEC.
pub mod Answers
pub mod Applies
use test_suites.Prelude.{
  ℕ, ◌≡◌, Bool, true, false, Option, none, some, List, [], ◌∷◌, map, ◌==◌, if◌then◌else◌, length,
  min,
}
use test_suites.Prelude.Outcome.{Outcome, returns, panics, ◌>>=◌, ◌>>◌, ensure}
use test_suites.Prelude.Attempt.{Attempt, ok, err, panicked}
use test_suites.Fake.{
  Crates, FakeExecutor, ExecutorMode, sequential_only, parallel_only, both_comparison,
  TransactionStatus, keep, discard, retry, apply_write_set,
}
use test_suites.Fake.Outputs.{assert_outputs_equal}

module _ (k : Crates) where
  open k use {Output, VmStatus, Transaction, SignedTransaction, SignatureVerified, Store}

  abbrev pub BlockResult : Type 0
  BlockResult = Attempt VmStatus (List Output)

  unfoldable pub execute_transaction_block_impl_with_state_view :
      List SignatureVerified → Bool → Store → FakeExecutor k → BlockResult
  execute_transaction_block_impl_with_state_view block sequential view e =
      k.execute_block
        (record {
          concurrency_level = if sequential then 1 else min 4 k.num_cpus;
          allow_fallback = e.allow_block_executor_fallback;
          discard_failed_blocks = false;
        })
        block view

  unfoldable pub mode_of : Bool → FakeExecutor k → ExecutorMode
  mode_of parallel_enabled e = elim e.executor_mode [
    | some mode ↦ mode
    | none ↦ if parallel_enabled then both_comparison else sequential_only
  ]

  -- The comparison of two results: the outputs one by one, and anything else as a whole.
  unfoldable pub compare_results : BlockResult → BlockResult → Outcome (Unit {0})
  unfolding assert_outputs_equal
  compare_results (ok outputs_1) (ok outputs_2) = assert_outputs_equal k outputs_1 outputs_2
  compare_results (err e₁) (err e₂) = ensure (k.vm_status_eq.eq e₁ e₂)
  compare_results (ok outputs) (err e) = panics
  compare_results (err e) (ok outputs) = panics
  compare_results panicked second = panics
  compare_results (ok outputs) panicked = panics
  compare_results (err e) panicked = panics

  -- The sequential result goes first, and is the one that is returned.
  unfoldable pub execute_both : BlockResult → BlockResult → BlockResult
  unfolding compare_results
  execute_both sequential parallel = elim (compare_results sequential parallel) [
    | returns u ↦ sequential
    | panics ↦ panicked
  ]

  unfoldable pub execute_in_mode : ExecutorMode → BlockResult → BlockResult → BlockResult
  unfolding execute_both
  execute_in_mode sequential_only sequential parallel = sequential
  execute_in_mode parallel_only sequential parallel = parallel
  execute_in_mode both_comparison sequential parallel = execute_both sequential parallel

  unfoldable pub execute_transaction_block_with_state_view :
      Bool → List Transaction → Store → FakeExecutor k → BlockResult
  unfolding mode_of execute_in_mode execute_transaction_block_impl_with_state_view
  execute_transaction_block_with_state_view parallel_enabled txn_block view e =
      let block = map k.into_signature_verified txn_block in
      execute_in_mode (mode_of parallel_enabled e)
        (execute_transaction_block_impl_with_state_view block true view e)
        (execute_transaction_block_impl_with_state_view block false view e)

  unfoldable pub execute_transaction_block : Bool → List Transaction → FakeExecutor k → BlockResult
  unfolding execute_transaction_block_with_state_view
  execute_transaction_block parallel_enabled txn_block e =
      execute_transaction_block_with_state_view parallel_enabled txn_block e.data_store e

  unfoldable pub execute_block : Bool → List SignedTransaction → FakeExecutor k → BlockResult
  unfolding execute_transaction_block
  execute_block parallel_enabled txns e =
      execute_transaction_block parallel_enabled (map k.user_transaction txns) e

  -- `unwrap` and `expect` of a result.
  abbrev pub unwrap_result : BlockResult → Outcome (List Output)
  unwrap_result (ok outputs) = returns outputs
  unwrap_result (err e) = panics
  unwrap_result panicked = panics

  -- `pop().unwrap()`
  abbrev pub pop_last : {A : Type 0} → List A → Outcome A
  pop_last [] = panics
  pop_last (x ∷ []) = returns x
  pop_last (x ∷ y ∷ rest) = pop_last (y ∷ rest)

  unfoldable pub execute_transaction : Bool → SignedTransaction → FakeExecutor k → Outcome Output
  unfolding execute_block
  execute_transaction parallel_enabled txn e = do
    outputs ← unwrap_result (execute_block parallel_enabled (txn ∷ []) e)
    pop_last outputs

  -- The writes of a kept transaction are applied before its status is asserted.
  unfoldable pub apply_kept :
      Output
      → TransactionStatus k.Execution k.Code
      → FakeExecutor k
      → Outcome (Output × FakeExecutor k)
  unfolding apply_write_set
  apply_kept output (keep status) e =
      let e' = apply_write_set k (k.write_set output) e in
      ensure (k.execution_eq.eq status k.success) >> returns (output, e')
  apply_kept output (discard code) e = panics
  apply_kept output retry e = panics

  unfoldable pub execute_and_apply :
      Bool → SignedTransaction → FakeExecutor k → Outcome (Output × FakeExecutor k)
  unfolding execute_block apply_kept
  execute_and_apply parallel_enabled txn e = do
    outputs ← unwrap_result (execute_block parallel_enabled (txn ∷ []) e)
    ensure (length outputs == 1)
    output ← pop_last outputs
    apply_kept output (k.status output) e

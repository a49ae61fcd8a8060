-- ===== src/Simulator.antt =====
-- The benchmark driver `Similator`
-- (codes/aptos/modified/aptos-transaction-benchmarks/src/simulator.rs): the block executor, the
-- clock and the random numbers it uses, and the execution of a block of transactions. Printed
-- lines are left out.
pub mod Generate
pub mod Workloads
pub mod Erc20
mod Tests
use test_suites.Prelude.{
  ℕ, zero, suc, ◌+◌, ◌*◌, ◌/◌, ◌≤◌, ◌<◌, ◌≡◌, Bool, true, false, Option, none, some, List, [], ◌∷◌,
  ltb, if◌then◌else◌, length,
}
use test_suites.Prelude.Words.{mul64}
use test_suites.Prelude.Outcome.{Outcome, returns, panics, ◌>>=◌, ◌>>◌, ensure, unwrap}
use test_suites.Transactions.{SignedTransaction}
use test_suites.Universe.Population.{AccountUniverse}

-- `rand::thread_rng()`: `gen_range` draws from its half-open range.
pub record Rng : Type 1 where
  pub Seed : Type 0
  pub gen_range : ℕ → ℕ → Seed → ℕ × Seed
  pub gen_range_lem :
      (lo hi : ℕ) (s : Seed) → lo < hi → (lo ≤ (gen_range lo hi s).0) × ((gen_range lo hi s).0 < hi)

-- The block executor with a concurrency level and a gas limit, the milliseconds it takes, and the
-- state view; `none` of `execute_block` is a failure.
pub record Vm : Type 1 where
  pub View : Type 0
  pub TransactionOutput : Type 0
  pub execute_block : View → List SignedTransaction → ℕ → Option ℕ → Option (List TransactionOutput)
  pub exec_time : View → List SignedTransaction → ℕ → Option ℕ → ℕ
  pub is_success : TransactionOutput → Bool
  pub add_write_set : View → TransactionOutput → View
  pub num_cpus : ℕ

pub record Similator (vm : Vm) (D : Type 0) : Type 0 where
  pub account_universe : AccountUniverse D
  pub state_view : vm.View

module _ (vm : Vm) where
  open vm use {View, TransactionOutput}

  -- `expect("VM should not fail to start")`
  unfoldable pub execute :
      View → List SignedTransaction → ℕ → Option ℕ → Outcome (List TransactionOutput)
  execute view txns level limit = unwrap (vm.execute_block view txns level limit)

  -- The outputs are asserted to be successes and applied in order.
  unfoldable pub apply_outputs : View → List TransactionOutput → Outcome View
  apply_outputs view [] = returns view
  apply_outputs view (o ∷ rest) =
      ensure (vm.is_success o) >> apply_outputs (vm.add_write_set view o) rest

  unfoldable pub execute_and_apply_transactions : View → List SignedTransaction → Outcome View
  unfolding execute apply_outputs
  execute_and_apply_transactions view txns = do
    outputs ← execute view txns vm.num_cpus none
    apply_outputs view outputs

  -- `block_size * 1000 / exec_time`, which panics on a time of 0.
  unfoldable pub throughput : ℕ → ℕ → Outcome ℕ
  throughput block_size zero = panics
  throughput block_size (suc t) = returns (mul64 block_size 1000 / suc t)

  unfoldable pub execute_benchmark_parallel :
      View → List SignedTransaction → ℕ → Option ℕ → Outcome (List TransactionOutput × ℕ)
  unfolding execute throughput
  execute_benchmark_parallel view txns level limit = do
    outputs ← execute view txns level limit
    tps ← throughput (length txns) (vm.exec_time view txns level limit)
    returns (outputs, tps)

  unfoldable pub execute_benchmark_sequential :
      View → List SignedTransaction → Option ℕ → Outcome (List TransactionOutput × ℕ)
  unfolding execute throughput
  execute_benchmark_sequential view txns limit = do
    outputs ← execute view txns 1 limit
    tps ← throughput (length txns) (vm.exec_time view txns 1 limit)
    returns (outputs, tps)

  unfoldable pub all_succeed : List TransactionOutput → Outcome (Unit {0})
  all_succeed [] = returns tt
  all_succeed (o ∷ rest) = ensure (vm.is_success o) >> all_succeed rest

  -- The throughputs of the two runs, 0 for one that is left out.
  unfoldable pub execute_blockstm_benchmark :
      View → List SignedTransaction → Bool → Bool → ℕ → Option ℕ → Outcome (ℕ × ℕ)
  unfolding execute_benchmark_parallel execute_benchmark_sequential all_succeed
  execute_blockstm_benchmark view txns run_par run_seq level limit = do
    (parallel, par_tps) ←
        if run_par then execute_benchmark_parallel view txns level limit else returns ([], 0)
    all_succeed parallel
    (sequential, seq_tps) ←
        if run_seq then execute_benchmark_sequential view txns limit else returns ([], 0)
    all_succeed sequential
    returns (par_tps, seq_tps)

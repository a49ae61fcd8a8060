-- ===== src/Fake/Blocks.antt =====
-- Blocks with metadata that `FakeExecutor` runs and applies
-- (codes/aptos/modified/e2e-tests/src/executor.rs).
pub mod Applied
use test_suites.Prelude.{
  ℕ, ◌+◌, ◌%◌, ◌≡◌, Bool, true, false, Option, none, some, List, [], ◌∷◌, map, if◌then◌else◌,
  get_elem?, length,
}
use test_suites.Prelude.Words.{add64}
use test_suites.Prelude.Outcome.{Outcome, returns, panics, ◌>>=◌, ◌>>◌, ensure, unwrap}
use test_suites.Fake.{Crates, FakeExecutor, TransactionStatus, apply_write_set, set_block_time}
use test_suites.Fake.Modes.{execute_transaction_block, unwrap_result}

module _ (k : Crates) where
  open k use {Output, SignedTransaction, Execution, Code}

  -- The statuses and the gas used.
  abbrev pub Report : Type 0
  Report = TransactionStatus Execution Code × ℕ

  unfoldable pub apply_outputs : List Output → FakeExecutor k → List Report × FakeExecutor k
  unfolding apply_write_set
  apply_outputs [] e = ([], e)
  apply_outputs (output ∷ rest) e =
      let (results, e') = apply_outputs rest (
        if k.is_discarded (k.status output) then e else apply_write_set k (k.write_set output) e) in
      ((k.status output, k.gas_used output) ∷ results, e')

  -- The second event of the first output.
  unfoldable pub check_new_block_event : List Output → Outcome (Unit {0})
  check_new_block_event outputs = do
    first ← unwrap (get_elem? outputs 0)
    event ← unwrap (get_elem? (k.events first) 1)
    ensure (k.is_v1 event)
    ensure (k.is_new_block_event event)
    ensure (k.decodes event)

  unfoldable pub run_block_with_metadata :
      Bool
      → ℕ
      → List ℕ
      → List SignedTransaction
      → FakeExecutor k
      → Outcome (List Report × FakeExecutor k)
  unfolding execute_transaction_block check_new_block_event apply_outputs
  run_block_with_metadata parallel_enabled proposer failed txns e = do
    validator_set ← unwrap (k.validators e.data_store)
    let metadata = k.new_metadata proposer (length validator_set % 65_536) failed e.block_time
    outputs ← unwrap_result k (
        execute_transaction_block k parallel_enabled
          (k.block_metadata metadata ∷ map k.user_transaction txns) e)
    check_new_block_event outputs
    returns (apply_outputs outputs e)

  unfoldable pub new_block_with_metadata :
      Bool → ℕ → List ℕ → FakeExecutor k → Outcome (FakeExecutor k)
  unfolding run_block_with_metadata
  new_block_with_metadata parallel_enabled proposer failed e = do
    (results, e') ← run_block_with_metadata parallel_enabled proposer failed [] e
    returns e'

  -- The first validator proposes.
  unfoldable pub new_block_with_timestamp : Bool → ℕ → FakeExecutor k → Outcome (FakeExecutor k)
  unfolding new_block_with_metadata set_block_time
  new_block_with_timestamp parallel_enabled time e =
      let e' = set_block_time k time e in
      (do
        validator_set ← unwrap (k.validators e'.data_store)
        proposer ← unwrap (get_elem? validator_set 0)
        new_block_with_metadata parallel_enabled proposer [] e')

  unfoldable pub new_block : Bool → FakeExecutor k → Outcome (FakeExecutor k)
  unfolding new_block_with_timestamp add64
  new_block parallel_enabled e = new_block_with_timestamp parallel_enabled (add64 e.block_time 1) e

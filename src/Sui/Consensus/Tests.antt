-- ===== src/Sui/Consensus/Tests.antt =====
-- Two transactions, one of which waits.
use test_suites.Prelude.{ℕ, Bool, true, [], ◌∷◌, ◌==◌}
use test_suites.Sui.Consensus.{
  direct_sequencing, ConsensusTransaction, user_transaction, process_consensus_transactions,
  enqueue_certificates_for_execution, Client,
}

-- Certificate 1 has a shared object.
abbrev shared : ℕ → Bool
shared cert = cert == 1

abbrev taken : ConsensusTransaction ℕ → Bool
taken tx = true

abbrev client : Client shared taken direct_sequencing
client = record {
  submitted = user_transaction 1 ∷ user_transaction 2 ∷ [];
  queue = user_transaction 2 ∷ [];
  calls =
      process_consensus_transactions (user_transaction 1)
      ∷ enqueue_certificates_for_execution 1
      ∷ [];
}

-- ===== src/Sui/Consensus/Drained.antt =====
-- Runs of the channel (codes/sui/modified/sui-single-node-benchmark/src/mock_consensus.rs).
use test_suites.Prelude.{◌≡◌, Bool, List, ◌++◌}
use test_suites.Sui.Consensus.{ConsensusMode, ConsensusTransaction, Client}
use test_suites.Sui.Consensus.Served.{IsAnswered}

module _ {C : Type 0} (contains_shared_object : C → Bool)
    (sequences : ConsensusTransaction C → Bool) (mode : ConsensusMode) where
  abbrev Clients : Type 0
  Clients = Client contains_shared_object sequences mode

  -- What was submitted is what was answered and what waits.
  abbrev pub IsKept : Clients → Type 0
  IsKept s =
      (answered : List (ConsensusTransaction C)) × (s.submitted ≡ answered ++ s.queue)
      × IsAnswered contains_shared_object mode answered s.calls

-- ===== src/Sui/Consensus.antt =====
-- `MockConsensusClient` (codes/sui/modified/sui-single-node-benchmark/src/mock_consensus.rs): the
-- clients and the task that receives share a bounded channel, and interleave in any order. The
-- validator that is called belongs to other crates; its calls are kept as a list.
pub mod Served
pub mod Drained
mod Tests
use test_suites.Prelude.{ℕ, ◌<◌, ◌≡◌, Bool, true, false, List, [], ◌∷◌, ◌++◌, length, if◌then◌else◌}
use test_suites.Prelude.Outcome.{Outcome, returns, panics, ◌>>=◌, ◌>>◌, ensure}
use test_suites.Sui.Node.{Component, validator_with_fake_consensus}

pub data ConsensusMode : Type 0 where
  noop : ConsensusMode
  direct_sequencing : ConsensusMode

-- The mode that `SingleValidator::new` chooses.
unfoldable pub consensus_mode : Component → ConsensusMode
consensus_mode validator_with_fake_consensus = direct_sequencing
consensus_mode component = noop

-- The kinds of `ConsensusTransaction`: all but the first are alike here.
pub data ConsensusTransaction (C : Type 0) : Type 0 where
  user_transaction : C → ConsensusTransaction C
  other_transaction : ConsensusTransaction C

pub data ValidatorCall (C : Type 0) : Type 0 where
  process_consensus_transactions : ConsensusTransaction C → ValidatorCall C
  enqueue_certificates_for_execution : C → ValidatorCall C

-- The channel is made for 1,000,000 transactions.
abbrev pub capacity : ℕ
capacity = 1_000_000

-- `sequences` tells whether the epoch store takes the transaction.
module _ {C : Type 0} (contains_shared_object : C → Bool)
    (sequences : ConsensusTransaction C → Bool) (mode : ConsensusMode) where
  unfoldable pub sequence :
      ConsensusMode → ConsensusTransaction C → Outcome (List (ValidatorCall C))
  sequence noop tx = returns []
  sequence direct_sequencing tx = do
    ensure (sequences tx)
    returns (process_consensus_transactions tx ∷ [])

  unfoldable pub user_certificate : ConsensusTransaction C → Outcome C
  user_certificate (user_transaction cert) = returns cert
  user_certificate other_transaction = panics

  -- A round of the loop of `run_impl`: its calls.
  unfoldable pub run_round : ConsensusTransaction C → Outcome (List (ValidatorCall C))
  unfolding sequence user_certificate
  run_round tx = do
    sequenced ← sequence mode tx
    cert ← user_certificate tx
    returns (
        sequenced
        ++ (if contains_shared_object cert
            then enqueue_certificates_for_execution cert ∷ []
            else []))

  -- What was submitted so far is kept to speak of it.
  pub record Client : Type 0 where
    pub submitted : List (ConsensusTransaction C)
    pub queue : List (ConsensusTransaction C)
    pub calls : List (ValidatorCall C)

  abbrev pub new_client : Client
  new_client = record { submitted = []; queue = []; calls = [] }

  -- A round that panics ends the task, and is no step.
  pub data Step (s : Client) : Client → Type 0 where
    submit_to_consensus :
        (tx : ConsensusTransaction C)
        → length s.queue < capacity
        → Step s (record {
          submitted = s.submitted ++ tx ∷ [];
          queue = s.queue ++ tx ∷ [];
          calls = s.calls;
        })
    receive :
        (tx : ConsensusTransaction C) (rest : List (ConsensusTransaction C))
        (calls : List (ValidatorCall C))
        → s.queue ≡ tx ∷ rest
        → run_round tx ≡ returns calls
        → Step s (record { submitted = s.submitted; queue = rest; calls = s.calls ++ calls })

  pub data Reach (s : Client) : Client → Type 0 where
    here : Reach s s
    next : {t u : Client} → Reach s t → Step t u → Reach s u

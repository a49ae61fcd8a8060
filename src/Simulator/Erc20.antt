-- ===== src/Simulator/Erc20.antt =====
-- `gen_transaction_for_erc20`
-- (codes/aptos/modified/aptos-transaction-benchmarks/src/simulator.rs): the transfers of a graph
-- of account indexes. Wrapping into signature-verified transactions is left out.
pub mod Numbers
use test_suites.Prelude.{
  ℕ, ◌+◌, ◌≡◌, Option, none, some, List, [], ◌∷◌, get_elem?, if◌then◌else◌, ◌==◌,
}
use test_suites.Prelude.Words.{add64}
use test_suites.Prelude.Maps.{Dict, lookup, insert}
use test_suites.Prelude.Outcome.{Outcome, returns, panics, ◌>>=◌, unwrap}
use test_suites.Transactions.{SignedTransaction, peer_to_peer_txn}
use test_suites.Universe.Account.{AccountApi, AccountCurrent}
use test_suites.Universe.Population.{AccountUniverse}

-- The number after the one in the map, or the account's own where there is none.
unfoldable pub next_number : Option ℕ → ℕ → ℕ
next_number none own = own
next_number (some n) own = add64 n 1

module _ (api : AccountApi) where
  open api use {AccountData}

  -- The loop, with the map of the numbers handed out so far.
  unfoldable pub gen_from :
      List (AccountCurrent AccountData) → List (ℕ × ℕ) → Dict ℕ → Outcome (List SignedTransaction)
  unfolding next_number
  gen_from accounts [] seq_map = returns []
  gen_from accounts (edge ∷ rest) seq_map = do
    sender ← unwrap (get_elem? accounts edge.0)
    receiver ← unwrap (get_elem? accounts edge.1)
    let number = next_number (lookup edge.0 seq_map) sender.sequence_number
    txns ← gen_from accounts rest (insert edge.0 number seq_map)
    returns (
        peer_to_peer_txn (api.address sender.initial_data) (api.address receiver.initial_data)
          number 1 100
        ∷ txns)

  unfoldable pub gen_transaction_for_erc20 :
      AccountUniverse AccountData → List (ℕ × ℕ) → Outcome (List SignedTransaction)
  unfolding gen_from
  gen_transaction_for_erc20 u transaction_graph = gen_from u.accounts transaction_graph []

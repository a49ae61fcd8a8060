-- ===== src/Simulator/Generate.antt =====
-- What the generators of codes/aptos/modified/aptos-transaction-benchmarks/src/simulator.rs share:
-- a draw, the split of the accounts, one signed transaction, and the loop around it.
pub mod Issues
use test_suites.Prelude.{
  ℕ, zero, suc, ◌+◌, ◌≤◌, ◌<◌, ◌≡◌, Bool, true, false, List, [], ◌∷◌, ltb, leb, if◌then◌else◌,
  length, take, drop, get_elem?, set,
}
use test_suites.Prelude.Outcome.{Outcome, returns, panics, ◌>>=◌, unwrap}
use test_suites.Transactions.{SignedTransaction}
use test_suites.Universe.Account.{AccountApi, AccountCurrent, increase_account_sequence_number}
use test_suites.Simulator.{Rng}

-- `rng.gen_range(lo, hi)`, which panics on an empty range.
unfoldable pub draw : (rng : Rng) → ℕ → ℕ → rng.Seed → Outcome (ℕ × rng.Seed)
draw rng lo hi s = if ltb lo hi then returns (rng.gen_range lo hi s) else panics

-- `split_at_mut`
unfoldable pub split_at_mut : {A : Type 0} → ℕ → List A → Outcome (List A × List A)
split_at_mut mid xs = if leb mid (length xs) then returns (take mid xs, drop mid xs) else panics

module _ (api : AccountApi) where
  open api use {AccountData}

  abbrev pub Accounts : Type 0
  Accounts = List (AccountCurrent AccountData)

  abbrev pub address_of : AccountCurrent AccountData → ℕ
  address_of a = api.address a.initial_data

  -- The account at an index signs a transaction with its sequence number, which is then increased.
  unfoldable pub issue :
      Accounts
      → ℕ
      → (AccountCurrent AccountData → SignedTransaction)
      → Outcome (SignedTransaction × Accounts)
  unfolding increase_account_sequence_number
  issue accounts i build = do
    sender ← unwrap (get_elem? accounts i)
    returns (build sender, set accounts i (increase_account_sequence_number sender))

  -- `for i in start..start + n`: every round signs one transaction.
  unfoldable pub issue_each :
      {S : Type 0}
      → (ℕ → Accounts → S → Outcome (SignedTransaction × Accounts × S))
      → ℕ
      → ℕ
      → Accounts
      → S
      → Outcome (List SignedTransaction × Accounts × S)
  issue_each round zero start accounts s = returns ([], accounts, s)
  issue_each round (suc n) start accounts s = do
    (txn, accounts', s') ← round start accounts s
    (txns, end, s'') ← issue_each round n (start + 1) accounts' s'
    returns (txn ∷ txns, end, s'')

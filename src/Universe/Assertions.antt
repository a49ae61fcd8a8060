-- ===== src/Universe/Assertions.antt =====
-- `run_and_assert_gas_cost_stability`, `run_and_assert_universe` and `assert_accounts_match`
-- (codes/aptos/modified/e2e-tests/src/account_universe.rs): generated transactions run on a
-- `FakeExecutor` and are compared with the universe's expectations. The generators are a parameter.
pub mod Verified
mod Tests
use test_suites.Prelude.{
  ℕ, ◌≡◌, Bool, true, false, Option, none, some, List, [], ◌∷◌, ◌==◌, if◌then◌else◌, length,
}
use test_suites.Prelude.Outcome.{Outcome, returns, panics}
use test_suites.Prelude.Attempt.{Attempt, ok, err, panicked, ◌>>=◌, ◌>>◌, unwrap}
use test_suites.Universe.Account.{AccountApi, AccountCurrent}
use test_suites.Universe.Account
use test_suites.Universe.Population.{
  AccountUniverse, AccountUniverseGen, setup, setup_gas_cost_stability,
}
use test_suites.Fake.{
  Crates, FakeExecutor, TransactionStatus, read_resource, add_account_data, apply_write_set,
}
use test_suites.Fake.Modes.{execute_block, BlockResult}

-- `TestCaseError`, of which only the message differs.
pub data TestFailure : Type 0 where
  test_failure : TestFailure

-- The generators with the transactions and expectations that they make, what is compared of an
-- account, and its resources in the store.
pub record Harness (api : AccountApi) (k : Crates) : Type 1 where
  pub TransactionGen : Type 0
  pub apply :
      TransactionGen
      → AccountUniverse api.AccountData
      → Outcome
          (k.SignedTransaction × (Account.TransactionStatus × ℕ) × AccountUniverse api.AccountData)
  pub transaction_status_eq :
      TransactionStatus k.Execution k.Code → Account.TransactionStatus → Bool
  pub account_data : api.AccountData → k.AccountData
  pub auth_key : api.AccountData → ℕ
  pub AccountResource : Type 0
  pub account_key : ℕ → ℕ
  pub account_from_bytes : k.Bytes → Option AccountResource
  pub authentication_key : AccountResource → ℕ
  pub sequence_number : AccountResource → ℕ
  pub CoinStoreResource : Type 0
  pub coin_store_key : ℕ → ℕ
  pub coin_store_from_bytes : k.Bytes → Option CoinStoreResource
  pub coin : CoinStoreResource → ℕ

module _ (api : AccountApi) (k : Crates) (h : Harness api k) where
  open k use {SignedTransaction, Output}
  open api use {AccountData}
  open h use {TransactionGen}

  abbrev pub Universe : Type 0
  Universe = AccountUniverse AccountData

  abbrev pub Expected : Type 0
  Expected = Account.TransactionStatus × ℕ

  -- A panic of a part is a panic of the test.
  abbrev pub lift : {A : Type 0} → Outcome A → Attempt TestFailure A
  lift (returns a) = ok a
  lift panics = panicked

  -- `execute_block(..).unwrap()`
  abbrev pub unwrap_block : BlockResult k → Attempt TestFailure (List Output)
  unwrap_block (ok outputs) = ok outputs
  unwrap_block (err e) = panicked
  unwrap_block panicked = panicked

  -- `prop_assert!`
  abbrev pub prop_assert : Bool → Attempt TestFailure (Unit {0})
  prop_assert b = if b then ok tt else err test_failure

  -- Every generator in order, with `unzip`.
  unfoldable pub apply_all :
      List TransactionGen
      → Universe
      → Attempt TestFailure (List SignedTransaction × List Expected × Universe)
  apply_all [] u = ok ([], [], u)
  apply_all (gen ∷ gens) u = do
    (txn, expected, u') ← lift (h.apply gen u)
    (txns, all_expected, u'') ← apply_all gens u'
    ok (txn ∷ txns, expected ∷ all_expected, u'')

  unfoldable pub add_accounts : List AccountData → FakeExecutor k → FakeExecutor k
  unfolding add_account_data
  add_accounts [] e = e
  add_accounts (d ∷ ds) e = add_accounts ds (add_account_data k (h.account_data d) e)

  -- The statuses and the gas of the outputs that have an expectation.
  unfoldable pub check_gas : List Output → List Expected → Attempt TestFailure (Unit {0})
  check_gas [] expected = ok tt
  check_gas (o ∷ os) [] = ok tt
  check_gas (o ∷ os) (x ∷ xs) =
      prop_assert (h.transaction_status_eq (k.status o) x.0)
      >> (prop_assert (k.gas_used o == x.1) >> check_gas os xs)

  unfoldable pub run_and_assert_gas_cost_stability :
      Bool
      → AccountUniverseGen AccountData
      → List TransactionGen
      → FakeExecutor k
      → Attempt TestFailure (Unit {0})
  unfolding apply_all add_accounts check_gas execute_block setup_gas_cost_stability
  run_and_assert_gas_cost_stability parallel_enabled universe gens genesis =
      let (u, added) = setup_gas_cost_stability api universe [] in
      (do
        (txns, expected, u') ← apply_all gens u
        outputs ← unwrap_block (execute_block k parallel_enabled txns (add_accounts added genesis))
        check_gas outputs expected)

  -- The writes are applied whatever the status is.
  unfoldable pub check_and_apply :
      List Output → List Expected → FakeExecutor k → Attempt TestFailure (FakeExecutor k)
  unfolding apply_write_set
  check_and_apply [] expected e = ok e
  check_and_apply (o ∷ os) [] e = ok e
  check_and_apply (o ∷ os) (x ∷ xs) e =
      prop_assert (h.transaction_status_eq (k.status o) x.0)
      >> check_and_apply os xs (apply_write_set k (k.write_set o) e)

  -- `read_account_resource(..).expect(..)` and that of the coin store.
  unfoldable pub read_account : ℕ → FakeExecutor k → Attempt TestFailure h.AccountResource
  unfolding read_resource
  read_account addr e = do
    found ← lift (read_resource k h.account_key h.account_from_bytes addr e)
    unwrap found

  unfoldable pub read_coin_store : ℕ → FakeExecutor k → Attempt TestFailure h.CoinStoreResource
  unfolding read_resource
  read_coin_store addr e = do
    found ← lift (read_resource k h.coin_store_key h.coin_store_from_bytes addr e)
    unwrap found

  unfoldable pub assert_account_matches :
      AccountCurrent AccountData → FakeExecutor k → Attempt TestFailure (Unit {0})
  unfolding read_account read_coin_store
  assert_account_matches account e = do
    resource ← read_account (api.address account.initial_data) e
    coin_store ← read_coin_store (api.address account.initial_data) e
    prop_assert (h.auth_key account.initial_data == h.authentication_key resource)
    prop_assert (account.balance == h.coin coin_store)
    prop_assert (account.sequence_number == h.sequence_number resource)

  unfoldable pub assert_accounts_match :
      List (AccountCurrent AccountData) → FakeExecutor k → Attempt TestFailure (Unit {0})
  unfolding assert_account_matches
  assert_accounts_match [] e = ok tt
  assert_accounts_match (account ∷ accounts) e =
      assert_account_matches account e >> assert_accounts_match accounts e

  unfoldable pub run_and_assert_universe :
      Bool
      → AccountUniverseGen AccountData
      → List TransactionGen
      → FakeExecutor k
      → Attempt TestFailure (Unit {0})
  unfolding apply_all add_accounts check_and_apply assert_accounts_match execute_block setup
  run_and_assert_universe parallel_enabled universe gens genesis =
      let (u, added) = setup api universe [] in
      let executor = add_accounts added genesis in
      (do
        (txns, expected, u') ← apply_all gens u
        outputs ← unwrap_block (execute_block k parallel_enabled txns executor)
        prop_assert (length outputs == length expected)
        executor' ← check_and_apply outputs expected executor
        assert_accounts_match u'.accounts executor')

-- ===== src/Universe/Assertions/Tests.antt =====
-- A run with one account and one transaction, and the theorems at it.
use test_suites.Prelude.{ℕ, ◌+◌, ◌≡◌, refl, true, false, some, List, [], ◌∷◌, All}
use test_suites.Prelude.Outcome.{returns}
use test_suites.Prelude.Attempt.{ok}
use test_suites.Universe.Account
use test_suites.Universe.Account.{AccountApi}
use test_suites.Universe.Picker.{AccountPickStyle}
use test_suites.Universe.Picker
use test_suites.Universe.Population
use test_suites.Universe.Population.{AccountUniverseGen, setup, setup_gas_cost_stability}
use test_suites.Fake.{keep, discard, retry, apply_write_set, read_resource, add_account_data}
use test_suites.Fake.Outputs.{
  assert_outputs_equal, assert_each_equal, assert_output_equal, differences, differing, collect_set,
  insert_key,
}
use test_suites.Fake.Modes.{
  mode_of, execute_transaction_block_impl_with_state_view, execute_block,
  execute_transaction_block_with_state_view, execute_transaction_block, execute_in_mode,
  execute_both, compare_results,
}
use test_suites.Fake.Sample.{sample_crates, fresh}
use test_suites.Universe.Assertions.{
  Harness, Universe, Expected, apply_all, add_accounts, check_gas, check_and_apply, read_account,
  read_coin_store, assert_account_matches, assert_accounts_match, run_and_assert_universe,
  run_and_assert_gas_cost_stability,
}
use test_suites.Universe.Assertions.Verified.{
  StatusesAgree, CostsAgree, IsStored, applied, run_and_assert_universe-IsVerified,
  run_and_assert_gas-CostsAgree,
}

abbrev sample_api : AccountApi
sample_api = record {
  AccountData = ℕ × ℕ;
  address = λ d. d.0;
  balance = λ d. d.1;
  sequence_number = λ d. 7;
  sent_events_count = λ d. 0;
  received_events_count = λ d. 0;
}

-- A generator is its transaction, which leaves the universe as it is.
abbrev sample_harness : Harness sample_api sample_crates
sample_harness = record {
  TransactionGen = ℕ;
  apply = λ gen u. returns (gen, (Account.keep Account.success, 1), u);
  transaction_status_eq = λ s x. elim s [ keep e ↦ true | discard c ↦ false | retry ↦ false ];
  account_data = λ d. d.0;
  auth_key = λ d. 0;
  AccountResource = ℕ;
  account_key = λ a. a;
  account_from_bytes = λ b. some b;
  authentication_key = λ r. r;
  sequence_number = λ r. r + 7;
  CoinStoreResource = ℕ;
  coin_store_key = λ a. a;
  coin_store_from_bytes = λ b. some b;
  coin = λ r. r + 100;
}

abbrev one_account : AccountUniverseGen (ℕ × ℕ)
one_account = record { accounts = (1, 100) ∷ []; pick_style = AccountPickStyle.unlimited }

universe_passes :
    run_and_assert_universe sample_api sample_crates sample_harness false one_account (3 ∷ []) fresh
    ≡ ok tt
unfolding run_and_assert_universe apply_all add_accounts check_and_apply assert_accounts_match
    assert_account_matches read_account read_coin_store read_resource add_account_data setup
    Population.new Account.new Picker.new execute_block execute_transaction_block
    execute_transaction_block_with_state_view mode_of execute_in_mode execute_both compare_results
    assert_outputs_equal assert_each_equal assert_output_equal differences differing collect_set
    insert_key execute_transaction_block_impl_with_state_view apply_write_set
universe_passes = refl

gas_passes :
    run_and_assert_gas_cost_stability sample_api sample_crates sample_harness false one_account
      (3 ∷ [])
      fresh
    ≡ ok tt
unfolding run_and_assert_gas_cost_stability apply_all add_accounts check_gas add_account_data
    setup_gas_cost_stability Population.new Account.new Picker.new execute_block
    execute_transaction_block execute_transaction_block_with_state_view mode_of execute_in_mode
    execute_both compare_results assert_outputs_equal assert_each_equal assert_output_equal
    differences differing collect_set insert_key execute_transaction_block_impl_with_state_view
gas_passes = refl

run_and_assert_universe-IsVerified_example :
    (txns : List ℕ) × (expected : List (Expected sample_api sample_crates sample_harness))
    × (u : Universe sample_api sample_crates sample_harness) × (outputs : List ℕ) × (apply_all
          sample_api sample_crates sample_harness
          (3 ∷ [])
          (setup sample_api one_account []).0
        ≡ ok (txns, expected, u))
    × (execute_block sample_crates false txns (
          add_accounts sample_api sample_crates sample_harness
            (setup sample_api one_account []).1
            fresh)
        ≡ ok outputs)
    × StatusesAgree sample_api sample_crates sample_harness outputs expected
    × All
        (IsStored sample_api sample_crates sample_harness (
          applied sample_api sample_crates sample_harness outputs (
            add_accounts sample_api sample_crates sample_harness
              (setup sample_api one_account []).1
              fresh)))
        u.accounts
run_and_assert_universe-IsVerified_example =
    run_and_assert_universe-IsVerified sample_api sample_crates sample_harness false one_account
      (3 ∷ []) fresh universe_passes

run_and_assert_gas-CostsAgree_example :
    (txns : List ℕ) × (expected : List (Expected sample_api sample_crates sample_harness))
    × (u : Universe sample_api sample_crates sample_harness) × (outputs : List ℕ) × (apply_all
          sample_api sample_crates sample_harness
          (3 ∷ [])
          (setup_gas_cost_stability sample_api one_account []).0
        ≡ ok (txns, expected, u))
    × (execute_block sample_crates false txns (
          add_accounts sample_api sample_crates sample_harness
            (setup_gas_cost_stability sample_api one_account []).1
            fresh)
        ≡ ok outputs)
    × CostsAgree sample_api sample_crates sample_harness outputs expected
run_and_assert_gas-CostsAgree_example =
    run_and_assert_gas-CostsAgree sample_api sample_crates sample_harness false one_account (3 ∷ [])
      fresh gas_passes

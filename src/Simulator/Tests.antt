-- ===== src/Simulator/Tests.antt =====
-- Generated transactions on three accounts, and the theorems at them.
use test_suites.Prelude.{
  ℕ, zero, suc, ◌+◌, ◌≡◌, refl, true, false, List, [], ◌∷◌, map, some, length, get_elem?, arith,
}
use test_suites.Prelude.Outcome.{Outcome, returns, panics}
use test_suites.Transactions.{SignedTransaction}
use test_suites.Universe.Account.{AccountApi, AccountCurrent}
use test_suites.Universe.Picker.{AccountPickStyle, AccountPicker}
use test_suites.Universe.Population.{AccountUniverse}
use test_suites.Simulator.{Rng}
use test_suites.Simulator.Generate.{Accounts, draw, issue, issue_each}
use test_suites.Simulator.Generate.Issues.{numbers_of, consecutive, Distinct}
use test_suites.Simulator.Workloads.{airdrop_transfer, receivers_of}
use test_suites.Simulator.Workloads.Numbered.{airdrop, ballot_sharding, round_of, workload_numbers}
use test_suites.Simulator.Workloads.Ends.{workload_returns}
use test_suites.Simulator.Erc20.{gen_transaction_for_erc20}
use test_suites.Simulator.Erc20.Numbers.{erc20_numbers}

-- Account data are an address.
abbrev sample_api : AccountApi
sample_api = record {
  AccountData = ℕ;
  address = λ d. d;
  balance = λ d. 1_000;
  sequence_number = λ d. 0;
  sent_events_count = λ d. 0;
  received_events_count = λ d. 0;
}

-- Every draw is the lower end of its range.
abbrev lowest : Rng
lowest = record {
  Seed = ℕ;
  gen_range = λ lo hi s. (lo, s + 1);
  gen_range_lem = λ lo hi s h. (omega arith, h);
}

abbrev account_at : ℕ → ℕ → AccountCurrent ℕ
account_at address number = record {
  initial_data = address;
  balance = 1_000;
  sequence_number = number;
  sent_events_count = 0;
  received_events_count = 0;
  event_counter_created = false;
}

abbrev three : Accounts sample_api
three = account_at 11 5 ∷ account_at 12 0 ∷ account_at 13 9 ∷ []

three_addresses :
    (i : ℕ) (a : AccountCurrent ℕ) → get_elem? three i ≡ some a → a.initial_data ≡ 11 + i
three_addresses zero a e = ground arith
three_addresses (suc zero) a e = ground arith
three_addresses (suc (suc zero)) a e = ground arith
three_addresses (suc (suc (suc i))) a e = absurd (cc)

three-Distinct : Distinct sample_api three
three-Distinct i j a b at_i at_j e =
    omega (arith, three_addresses i a at_i, three_addresses j b at_j)

abbrev airdrop_result : Outcome (List SignedTransaction × Accounts sample_api × ℕ)
airdrop_result = issue_each sample_api (round_of sample_api lowest airdrop) 2 0 three 0

abbrev airdrop_accounts : Accounts sample_api
airdrop_accounts = elim airdrop_result [ returns r ↦ r.1 | panics ↦ [] ]

abbrev airdrop_txns : List SignedTransaction
airdrop_txns = elim airdrop_result [ returns r ↦ r.0 | panics ↦ [] ]

workload_numbers_example :
    (length airdrop_txns ≡ 2)
    × (numbers_of 11 airdrop_txns ≡ consecutive 5 (length (numbers_of 11 airdrop_txns)))
unfolding issue_each airdrop_transfer draw receivers_of issue
workload_numbers_example =
    workload_numbers sample_api lowest airdrop 2 0 three 0 {ts = airdrop_txns}
      {end = airdrop_accounts} {s' = 12} 0 (account_at 11 5) three-Distinct refl refl

workload_returns_example :
    (end : List SignedTransaction × Accounts sample_api × ℕ) × (issue_each sample_api
        (round_of sample_api lowest (ballot_sharding 2 (account_at 1 0 ∷ account_at 2 0 ∷ [])))
        4
        0
        three
        0
      ≡ returns end)
workload_returns_example =
    workload_returns sample_api lowest (ballot_sharding 2 (account_at 1 0 ∷ account_at 2 0 ∷ [])) 4
      0 three 0 (omega arith, omega arith, omega arith, refl)

abbrev three_universe : AccountUniverse ℕ
three_universe = record {
  accounts = three;
  pick_style = AccountPickStyle.unlimited;
  picker = AccountPicker.unlimited 3;
  ignore_new_accounts = true;
}

abbrev graph : List (ℕ × ℕ)
graph = (0, 1) ∷ (2, 0) ∷ (0, 2) ∷ []

abbrev graph_txns : List SignedTransaction
graph_txns = elim (gen_transaction_for_erc20 sample_api three_universe graph) [
  | returns r ↦ r
  | panics ↦ []
]

erc20_numbers_example : map (λ t. t.sequence_number) graph_txns ≡ 5 ∷ 9 ∷ 6 ∷ []
unfolding gen_transaction_for_erc20
erc20_numbers_example =
    erc20_numbers sample_api three_universe graph {txns = graph_txns}
      (omega arith, (omega arith, (omega arith, tt))) refl

-- ===== src/Universe/Tests.antt =====
-- Runs of the account universe on two accounts, and its theorems at them.
use test_suites.Prelude.{
  ℕ, ◌+◌, ◌*◌, ◌%◌, ◌<◌, ◌≤◌, ◌≡◌, ◌↔◌, refl, Bool, true, false, List, [], ◌∷◌, ltb, if◌then◌else◌,
  length, All, arith,
}
use test_suites.Prelude.Outcome.{returns, Outcome, panics}
use test_suites.Prelude.Words.{mul64, add64, sub64}
use test_suites.Universe.Account
use test_suites.Universe.Account.{
  AccountApi, GasCosts, AccountCurrent, TransactionStatus, keep, discard, success, move_abort,
  core_account_module, txn_one_account_result, insufficient_balance_for_transaction_fee,
}
use test_suites.Universe.Account.Settlement.{
  one_account_settles, one_account_succeeds, charge, consumed,
}
use test_suites.Universe.Picker.{
  Sampling, AccountPickStyle, AccountPicker, new, pick_pair, pick_pair_impl, ordered_pair,
  pick_limited, pick, index_in,
}
use test_suites.Universe.Picker.Budget.{times_left}
use test_suites.Universe.Picker.History.{done, one, two, count, limited-Picks}
use test_suites.Universe.Population.{AccountUniverse, AccountPairGen}
use test_suites.Universe.Population
use test_suites.Transactions.{SignedTransaction, peer_to_peer_txn}
use test_suites.Universe.Transfer.{P2PTransferGen, apply, transfer, unit_gas_price}
use test_suites.Universe.Transfer.Conservation.{
  transfer_conserves, apply_conserves, total, is_success,
}
use test_suites.Universe.Transfer.Totality.{apply_returns}

-- Account data are an address and a balance.
abbrev sample_api : AccountApi
sample_api = record {
  AccountData = ℕ × ℕ;
  address = λ d. d.0;
  balance = λ d. d.1;
  sequence_number = λ d. 7;
  sent_events_count = λ d. 0;
  received_events_count = λ d. 0;
}

abbrev sample_costs : GasCosts
sample_costs = record {
  txn_reserved = 500;
  create_account_first = 20;
  create_account_next = 19;
  create_account_too_low_first = 18;
  create_account_too_low_next = 17;
  create_existing_account_first = 16;
  create_existing_account_next = 15;
  peer_to_peer = 10;
  peer_to_peer_too_low = 6;
  peer_to_peer_new_receiver_first = 14;
  peer_to_peer_new_receiver_next = 13;
  peer_to_peer_new_receiver_too_low_first = 12;
  peer_to_peer_new_receiver_too_low_next = 11;
}

-- The first two positions, where there are two.
abbrev first_two : ℕ → List ℕ
first_two n = if ltb 1 n then 0 ∷ 1 ∷ [] else []

first_two_bound : (n : ℕ) (b : Bool) → ltb 1 n ≡ b → All (λ k. k < n) (if b then 0 ∷ 1 ∷ [] else [])
first_two_bound n true h = (ground arith, (ground arith, tt))
first_two_bound n false h = tt

abbrev sample_sampling : Sampling
sample_sampling = record {
  Index = ℕ;
  index = λ i n. i % n;
  index-lt = λ i n h. omega arith;
  pick_slice_idxs = λ n p. first_two n;
  pick_slice_idxs_bound = λ n p. first_two_bound n (ltb 1 n) refl;
}

abbrev rich : AccountCurrent (ℕ × ℕ)
rich = record {
  initial_data = (1, 1_000_000);
  balance = 1_000_000;
  sequence_number = 7;
  sent_events_count = 0;
  received_events_count = 0;
  event_counter_created = false;
}

abbrev poor : AccountCurrent (ℕ × ℕ)
poor = record rich { initial_data = (2, 40_000); balance = 40_000 }

-- The transfer out of one account, on each branch.
abbrev statuses : List TransactionStatus
statuses =
    (txn_one_account_result sample_costs rich 5_000 100 10 6).1
    ∷ (txn_one_account_result sample_costs poor 5_000 100 10 6).1
    ∷ (txn_one_account_result sample_costs rich 2_000_000 100 10 6).1
    ∷ (txn_one_account_result sample_costs rich 999_999 100 10 6).1
    ∷ []

statuses_example :
    statuses
    ≡ keep success
      ∷ discard insufficient_balance_for_transaction_fee
      ∷ keep (move_abort core_account_module 10)
      ∷ keep (move_abort core_account_module 6)
      ∷ []
unfolding txn_one_account_result mul64 add64
statuses_example = refl

one_account_settles_example :
    let (sender', status, is_done) = txn_one_account_result sample_costs rich 5_000 100 10 6 in
    (sender'.balance + charge status 5_000 1_000 600 ≡ 1_000_000)
    × (sender'.sequence_number ≡ 7 + consumed status)
    × (sender'.received_events_count ≡ 0)
    × (sender'.event_counter_created ≡ false)
one_account_settles_example = one_account_settles sample_costs rich 5_000 100 10 6 (record {
  balance_word = omega arith;
  sequence_room = omega arith;
  events_room = omega arith;
  reserve_word = omega arith;
  total_word = omega arith;
  gas_reserved = omega arith;
  low_reserved = omega arith;
})

one_account_succeeds_example :
    let (sender', status, is_done) = txn_one_account_result sample_costs rich 5_000 100 10 6 in
    ((is_done ≡ true) ↔ ((500 * 100 ≤ 1_000_000) × (5_000 + 10 * 100 ≤ 1_000_000)))
    × ((status ≡ keep success) ↔ (is_done ≡ true))
    × (sender'.sent_events_count ≡ 0 + (if is_done then 1 else 0))
one_account_succeeds_example = one_account_succeeds sample_costs rich 5_000 100 10 6 (record {
  balance_word = omega arith;
  sequence_room = omega arith;
  events_room = omega arith;
  reserve_word = omega arith;
  total_word = omega arith;
  gas_reserved = omega arith;
  low_reserved = omega arith;
})

transfer_conserves_example :
    let r = transfer sample_costs rich poor 5_000 100 in
    (r.sender.balance + r.receiver.balance + r.gas_used * 100 ≡ 1_040_000)
    × (r.receiver.balance ≡ 40_000 + (if is_success r.status then 5_000 else 0))
    × ((is_success r.status ≡ true) ↔ (5_000 + 10 * 100 ≤ 1_000_000))
transfer_conserves_example = transfer_conserves sample_costs rich poor 5_000 100 (record {
  sender_word = omega arith;
  receiver_word = omega arith;
  total_word = omega arith;
  low_gas = omega arith;
})

-- The universe of the two accounts, and a transfer of 5,000 from the first to the second.
abbrev pair_universe : AccountUniverse (ℕ × ℕ)
pair_universe =
    Population.new sample_api ((1, 1_000_000) ∷ (2, 40_000) ∷ []) AccountPickStyle.unlimited true

abbrev gift : P2PTransferGen sample_sampling
gift = record { sender_receiver = record { pair = (0, 0); reverse = false }; amount = 5_000 }

abbrev gift_result : Outcome (AccountUniverse (ℕ × ℕ) × SignedTransaction × TransactionStatus × ℕ)
gift_result = apply sample_costs sample_api sample_sampling gift pair_universe

abbrev after_gift : AccountUniverse (ℕ × ℕ)
after_gift = elim gift_result [ returns r ↦ r.0 | panics ↦ pair_universe ]

apply_returns_example :
    (r : AccountUniverse (ℕ × ℕ) × SignedTransaction × TransactionStatus × ℕ) × (apply sample_costs
        sample_api sample_sampling gift pair_universe
      ≡ returns r)
unfolding Population.new new
apply_returns_example =
    apply_returns sample_costs sample_api sample_sampling gift pair_universe 0 1 refl refl
      (omega arith)

apply_conserves_example :
    (total after_gift.accounts + 10 * unit_gas_price ≡ total pair_universe.accounts)
    × (length after_gift.accounts ≡ length pair_universe.accounts)
unfolding apply Population.new new Account.new Population.pick_accounts pick_pair pick_pair_impl
    Population.pair_at transfer mul64 add64 sub64 Population.write_pair peer_to_peer_txn
    ordered_pair
apply_conserves_example =
    apply_conserves sample_costs sample_api sample_sampling gift pair_universe {u' = after_gift}
      {txn = peer_to_peer_txn 1 2 7 5_000 100} {status = keep success} {gas = 10}
      (record { word = omega arith; low_gas = omega arith }) refl

-- Two accounts that may be picked twice each: one picked alone, then both.
abbrev used_picker : AccountPicker
used_picker = AccountPicker.limited ((1, 1) ∷ [])

limited-Picks_example :
    (rest : List (ℕ × ℕ)) × (used_picker ≡ AccountPicker.limited rest)
    × ((a : ℕ) → a < 2 → count a (0 ∷ 0 ∷ 1 ∷ []) + times_left a rest ≡ 2)
    × All (λ a. a < 2) (0 ∷ 0 ∷ 1 ∷ [])
unfolding new pick pick_pair pick_pair_impl ordered_pair index_in pick_limited sub64
limited-Picks_example =
    limited-Picks sample_sampling 2 2 {xs = 0 ∷ 0 ∷ 1 ∷ []} {q = used_picker} (omega arith)
      (omega arith)
      (one {q = AccountPicker.limited ((0, 1) ∷ (1, 2) ∷ [])} 0 refl
        (two {q = used_picker} (0, 0) refl done))

-- ===== src/Universe/Account.antt =====
-- `AccountCurrent` and the outcome of a transfer out of one account
-- (codes/aptos/modified/e2e-tests/src/account_universe.rs).
pub mod Settlement
use test_suites.Prelude.{ℕ, ◌+◌, ◌*◌, ◌≤◌, ◌<◌, ◌≡◌, Bool, true, false, leb, if◌then◌else◌}
use test_suites.Prelude.Words.{add64, sub64, mul64, u64_mod}

-- What the source reads of an `AccountData`, which another file of the crate defines.
pub record AccountApi : Type 1 where
  pub AccountData : Type 0
  pub address : AccountData → ℕ
  pub balance : AccountData → ℕ
  pub sequence_number : AccountData → ℕ
  pub sent_events_count : AccountData → ℕ
  pub received_events_count : AccountData → ℕ

-- The constants of the crate's `gas_costs`, which are measured elsewhere.
pub record GasCosts : Type 0 where
  pub txn_reserved : ℕ
  pub create_account_first : ℕ
  pub create_account_next : ℕ
  pub create_account_too_low_first : ℕ
  pub create_account_too_low_next : ℕ
  pub create_existing_account_first : ℕ
  pub create_existing_account_next : ℕ
  pub peer_to_peer : ℕ
  pub peer_to_peer_too_low : ℕ
  pub peer_to_peer_new_receiver_first : ℕ
  pub peer_to_peer_new_receiver_next : ℕ
  pub peer_to_peer_new_receiver_too_low_first : ℕ
  pub peer_to_peer_new_receiver_too_low_next : ℕ

pub record AccountCurrent (D : Type 0) : Type 0 where
  pub initial_data : D
  pub balance : ℕ
  pub sequence_number : ℕ
  pub sent_events_count : ℕ
  pub received_events_count : ℕ
  pub event_counter_created : Bool

-- `AccountCurrent::new`
unfoldable pub new : (api : AccountApi) → api.AccountData → AccountCurrent api.AccountData
new api d = record {
  initial_data = d;
  balance = api.balance d;
  sequence_number = api.sequence_number d;
  sent_events_count = api.sent_events_count d;
  received_events_count = api.received_events_count d;
  event_counter_created = false;
}

-- The statuses that the expected outcomes use.
pub data AbortLocation : Type 0 where
  core_account_module coin_module : AbortLocation

pub data ExecutionStatus : Type 0 where
  success : ExecutionStatus
  move_abort : AbortLocation → ℕ → ExecutionStatus

pub data StatusCode : Type 0 where
  insufficient_balance_for_transaction_fee : StatusCode

pub data TransactionStatus : Type 0 where
  keep : ExecutionStatus → TransactionStatus
  discard : StatusCode → TransactionStatus

module _ {D : Type 0} where
  unfoldable pub increase_account_sequence_number : AccountCurrent D → AccountCurrent D
  increase_account_sequence_number a = record a { sequence_number = add64 a.sequence_number 1 }

  unfoldable pub create_account_gas_cost : GasCosts → AccountCurrent D → ℕ
  create_account_gas_cost costs a =
      if a.event_counter_created then costs.create_account_next else costs.create_account_first

  unfoldable pub create_account_low_balance_gas_cost : GasCosts → AccountCurrent D → ℕ
  create_account_low_balance_gas_cost costs a =
      if a.event_counter_created
      then costs.create_account_too_low_next
      else costs.create_account_too_low_first

  unfoldable pub create_existing_account_gas_cost : GasCosts → AccountCurrent D → ℕ
  create_existing_account_gas_cost costs a =
      if a.event_counter_created
      then costs.create_existing_account_next
      else costs.create_existing_account_first

  unfoldable pub peer_to_peer_gas_cost : GasCosts → AccountCurrent D → ℕ
  peer_to_peer_gas_cost costs a = costs.peer_to_peer

  unfoldable pub peer_to_peer_too_low_gas_cost : GasCosts → AccountCurrent D → ℕ
  peer_to_peer_too_low_gas_cost costs a = costs.peer_to_peer_too_low

  unfoldable pub peer_to_peer_new_receiver_gas_cost : GasCosts → AccountCurrent D → ℕ
  peer_to_peer_new_receiver_gas_cost costs a =
      if a.event_counter_created
      then costs.peer_to_peer_new_receiver_next
      else costs.peer_to_peer_new_receiver_first

  unfoldable pub peer_to_peer_new_receiver_too_low_gas_cost : GasCosts → AccountCurrent D → ℕ
  peer_to_peer_new_receiver_too_low_gas_cost costs a =
      if a.event_counter_created
      then costs.peer_to_peer_new_receiver_too_low_next
      else costs.peer_to_peer_new_receiver_too_low_first

  -- The sender after the transaction, the expected status, and whether it succeeded.
  unfoldable pub txn_one_account_result :
      GasCosts → AccountCurrent D → ℕ → ℕ → ℕ → ℕ → AccountCurrent D × TransactionStatus × Bool
  txn_one_account_result costs sender amount gas_price gas_used low_gas_used =
      let enough_max_gas = leb (mul64 costs.txn_reserved gas_price) sender.balance in
      let enough_to_transfer = leb amount sender.balance in
      let to_deduct = add64 amount (mul64 gas_used gas_price) in
      let enough_to_succeed = leb to_deduct sender.balance in
      if enough_max_gas
      then if enough_to_transfer
        then if enough_to_succeed
          then (
            record sender {
              sequence_number = add64 sender.sequence_number 1;
              sent_events_count = add64 sender.sent_events_count 1;
              balance = sub64 sender.balance to_deduct;
            },
            keep success,
            true,
          )
          else (
            record sender {
              sequence_number = add64 sender.sequence_number 1;
              balance = sub64 sender.balance (mul64 gas_used gas_price);
            },
            keep (move_abort core_account_module 6),
            false,
          )
        else (
          record sender {
            sequence_number = add64 sender.sequence_number 1;
            balance = sub64 sender.balance (mul64 low_gas_used gas_price);
          },
          keep (move_abort core_account_module 10),
          false,
        )
      else (sender, discard insufficient_balance_for_transaction_fee, false)

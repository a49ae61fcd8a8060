-- ===== src/Universe/Transfer.antt =====
-- `P2PTransferGen::apply` (codes/aptos/modified/e2e-tests/src/account_universe/peer_to_peer.rs).
pub mod Conservation
pub mod Totality
use test_suites.Prelude.{ℕ, ◌≡◌, Bool, true, false, leb, if◌then◌else◌}
use test_suites.Prelude.Words.{add64, sub64, mul64}
use test_suites.Prelude.Outcome.{Outcome, returns, panics, ◌>>=◌}
use test_suites.Transactions.{SignedTransaction, peer_to_peer_txn}
use test_suites.Universe.Account.{
  AccountApi, GasCosts, AccountCurrent, TransactionStatus, keep, discard, success, move_abort,
  coin_module, insufficient_balance_for_transaction_fee, peer_to_peer_gas_cost,
  peer_to_peer_too_low_gas_cost,
}
use test_suites.Universe.Picker.{Sampling}
use test_suites.Universe.Population.{
  AccountUniverse, AccountPair, AccountPairGen, pick_accounts, write_pair,
}

-- The unit gas price of the generated transactions.
abbrev pub unit_gas_price : ℕ
unit_gas_price = 100

pub record P2PTransferGen (s : Sampling) : Type 0 where
  pub sender_receiver : AccountPairGen s
  pub amount : ℕ

-- The two accounts after the transfer, the expected status and the gas used.
pub record Expected (D : Type 0) : Type 0 where
  pub sender : AccountCurrent D
  pub receiver : AccountCurrent D
  pub status : TransactionStatus
  pub gas_used : ℕ

module _ {D : Type 0} (costs : GasCosts) where
  -- The `match` of `apply` on the three tests.
  unfoldable pub transfer : AccountCurrent D → AccountCurrent D → ℕ → ℕ → Expected D
  unfolding peer_to_peer_gas_cost peer_to_peer_too_low_gas_cost
  transfer sender receiver amount price =
      let enough_to_transfer = leb amount sender.balance in
      let gas_amount = mul64 (peer_to_peer_gas_cost costs sender) price in
      let to_deduct = add64 amount gas_amount in
      let enough_max_gas = leb gas_amount sender.balance in
      let enough_to_succeed = leb to_deduct sender.balance in
      if enough_max_gas
      then if enough_to_transfer
        then if enough_to_succeed
          then record {
            sender = record sender {
              sequence_number = add64 sender.sequence_number 1;
              sent_events_count = add64 sender.sent_events_count 1;
              balance = sub64 sender.balance to_deduct;
            };
            receiver = record receiver {
              balance = add64 receiver.balance amount;
              received_events_count = add64 receiver.received_events_count 1;
            };
            status = keep success;
            gas_used = peer_to_peer_gas_cost costs sender;
          }
          else record {
            sender = record sender {
              sequence_number = add64 sender.sequence_number 1;
              balance = sub64 sender.balance (mul64 (peer_to_peer_gas_cost costs sender) price);
            };
            receiver = receiver;
            status = keep (move_abort coin_module 65542);
            gas_used = peer_to_peer_gas_cost costs sender;
          }
        else record {
          sender = record sender {
            sequence_number = add64 sender.sequence_number 1;
            balance =
                sub64 sender.balance (mul64 (peer_to_peer_too_low_gas_cost costs sender) price);
          };
          receiver = receiver;
          status = keep (move_abort coin_module 65542);
          gas_used = peer_to_peer_too_low_gas_cost costs sender;
        }
      else record {
        sender = sender;
        receiver = receiver;
        status = discard insufficient_balance_for_transaction_fee;
        gas_used = 0;
      }

-- The universe after the transfer, the transaction, and the expected status and gas.
unfoldable pub apply :
    (costs : GasCosts) (api : AccountApi) (s : Sampling)
    → P2PTransferGen s
    → AccountUniverse api.AccountData
    → Outcome (AccountUniverse api.AccountData × SignedTransaction × TransactionStatus × ℕ)
apply costs api s g u = do
  (pair, u') ← pick_accounts s g.sender_receiver u
  let sender = pair.account_1
  let receiver = pair.account_2
  let txn =
      peer_to_peer_txn (api.address sender.initial_data) (api.address receiver.initial_data)
        sender.sequence_number g.amount unit_gas_price
  let r = transfer costs sender receiver g.amount unit_gas_price
  returns (
    write_pair (record pair { account_1 = r.sender; account_2 = r.receiver }) u',
    txn,
    r.status,
    r.gas_used,
  )

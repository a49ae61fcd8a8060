-- ===== src/Universe/Account/Settlement.antt =====
-- What a transfer out of one account costs its sender, on every branch of
-- `txn_one_account_result`.
use test_suites.Prelude.{ℕ, ◌+◌, ◌*◌, ◌≤◌, ◌<◌, ◌≡◌, ◌↔◌, true, arith, ◌==◌, if◌then◌else◌}
use test_suites.Prelude.Words.{u64_mod, add64, sub64, mul64_exact}
use test_suites.Universe.Account.{
  GasCosts, AccountCurrent, TransactionStatus, keep, discard, success, move_abort,
  txn_one_account_result,
}

-- No word of the computation overflows, and a failing run costs no more than what the
-- validation reserved.
pub record Fits {D : Type 0} (costs : GasCosts) (sender : AccountCurrent D)
    (amount gas_price gas_used low_gas_used : ℕ) : Type 0 where
  pub balance_word : sender.balance < u64_mod
  pub sequence_room : sender.sequence_number + 1 < u64_mod
  pub events_room : sender.sent_events_count + 1 < u64_mod
  pub reserve_word : costs.txn_reserved * gas_price < u64_mod
  pub total_word : amount + gas_used * gas_price < u64_mod
  pub gas_reserved : gas_used * gas_price ≤ costs.txn_reserved * gas_price
  pub low_reserved : low_gas_used * gas_price ≤ costs.txn_reserved * gas_price

-- The amount that a status takes from the sender: a success the transfer and its gas, an abort in
-- the epilogue (code 6) the gas, any other abort the lower gas, a discard nothing.
abbrev pub charge : TransactionStatus → ℕ → ℕ → ℕ → ℕ
charge (keep success) amount fee low_fee = amount + fee
charge (keep (move_abort _ code)) amount fee low_fee = if code == 6 then fee else low_fee
charge (discard _) amount fee low_fee = 0

-- How much a status moves the sequence number.
abbrev pub consumed : TransactionStatus → ℕ
consumed (keep _) = 1
consumed (discard _) = 0

module _ {D : Type 0} (costs : GasCosts) (sender : AccountCurrent D)
    (amount gas_price gas_used low_gas_used : ℕ)
    (fits : Fits costs sender amount gas_price gas_used low_gas_used) where
  -- Where no word overflows and a run costs no more than the reserve, the sender pays exactly the
  -- charge of the returned status and the sequence number rises by one unless the transaction is
  -- discarded; what was received and the created flag stay.
  pub one_account_settles :
      let (sender', status, done) =
        txn_one_account_result costs sender amount gas_price gas_used low_gas_used in
      (sender'.balance + charge status amount (gas_used * gas_price) (low_gas_used * gas_price)
        ≡ sender.balance)
      × (sender'.sequence_number ≡ sender.sequence_number + consumed status)
      × (sender'.received_events_count ≡ sender.received_events_count)
      × (sender'.event_counter_created ≡ sender.event_counter_created)
  unfolding txn_one_account_result add64 sub64
  one_account_settles = ground (
    arith,
    mul64_exact costs.txn_reserved gas_price fits.reserve_word,
    mul64_exact gas_used gas_price,
    mul64_exact low_gas_used gas_price,
  )

  -- Where no word overflows, the transfer is reported as successful exactly when the balance
  -- covers both the reserve and the amount with its gas, and then alone the sent events rise.
  pub one_account_succeeds :
      let (sender', status, done) =
        txn_one_account_result costs sender amount gas_price gas_used low_gas_used in
      ((done ≡ true) ↔ (
        (costs.txn_reserved * gas_price ≤ sender.balance)
        × (amount + gas_used * gas_price ≤ sender.balance)))
      × ((status ≡ keep success) ↔ (done ≡ true))
      × (sender'.sent_events_count ≡ sender.sent_events_count + (if done then 1 else 0))
  unfolding txn_one_account_result add64
  one_account_succeeds = ground (
    arith,
    mul64_exact costs.txn_reserved gas_price fits.reserve_word,
    mul64_exact gas_used gas_price,
    mul64_exact low_gas_used gas_price,
  )

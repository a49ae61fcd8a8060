-- ===== src/Universe/Transfer/Conservation.antt =====
-- A transfer moves money between its two accounts, takes the gas from the sender, and touches
-- nothing else of the universe.
use native.Mathlib.Nat.{mul-le-mul_right}
use test_suites.Prelude.{
  ℕ, zero, suc, ◌+◌, ◌*◌, ◌≤◌, ◌<◌, ◌≡◌, sym, ap, subst, ◌∙◌, ◌≢◌, ◌↔◌, Bool, true, false, List, [],
  ◌∷◌, some, arith, if◌then◌else◌, length, length-set, get_elem?, get_elem?-set_ne, set,
}
use test_suites.Prelude.Words.{u64_mod, add64, sub64, mul64_exact}
use test_suites.Prelude.Outcome.{returns, >>=-eq-returns, returns-injective}
use test_suites.Universe.Account.{
  AccountApi, GasCosts, AccountCurrent, TransactionStatus, keep, success,
}
use test_suites.Universe.Picker.{Sampling}
use test_suites.Universe.Picker
use test_suites.Transactions.{SignedTransaction}
use test_suites.Universe.Population.{
  AccountUniverse, AccountPair, AccountPairGen, pick_accounts, write_pair, pair_at,
}
use test_suites.Universe.Transfer.{P2PTransferGen, transfer, apply, unit_gas_price}

-- No balance and no product overflows, and a failing transfer costs no more than a full one.
pub record Fits {D : Type 0} (costs : GasCosts) (sender receiver : AccountCurrent D)
    (amount price : ℕ) : Type 0 where
  pub sender_word : sender.balance < u64_mod
  pub receiver_word : receiver.balance + amount < u64_mod
  pub total_word : amount + costs.peer_to_peer * price < u64_mod
  pub low_gas : costs.peer_to_peer_too_low * price ≤ costs.peer_to_peer * price

abbrev pub is_success : TransactionStatus → Bool
is_success (keep success) = true
is_success _ = false

module _ {D : Type 0} (costs : GasCosts) (sender receiver : AccountCurrent D) (amount price : ℕ)
    (fits : Fits costs sender receiver amount price) where
  -- Where no word overflows, the two balances and the price of the reported gas add up to the two
  -- balances before; the receiver gains the amount exactly on success, which is reported exactly
  -- when the sender holds the amount and the gas of a full transfer.
  pub transfer_conserves :
      let r = transfer costs sender receiver amount price in
      (r.sender.balance + r.receiver.balance + r.gas_used * price
        ≡ sender.balance + receiver.balance)
      × (r.receiver.balance ≡ receiver.balance + (if is_success r.status then amount else 0))
      × ((is_success r.status ≡ true) ↔ (amount + costs.peer_to_peer * price ≤ sender.balance))
  unfolding transfer add64 sub64
  transfer_conserves =
      ground
        (arith, mul64_exact costs.peer_to_peer price, mul64_exact costs.peer_to_peer_too_low price)

abbrev pub total : {D : Type 0} → List (AccountCurrent D) → ℕ
total [] = 0
total (a ∷ xs) = a.balance + total xs

module _ {D : Type 0} where
  total-set :
      (xs : List (AccountCurrent D)) (i : ℕ) (a b : AccountCurrent D)
      → get_elem? xs i ≡ some a
      → total (set xs i b) + a.balance ≡ total xs + b.balance
  total-set [] i a b h = absurd (cc)
  total-set (x ∷ xs) zero a b h = ground arith
  total-set (x ∷ xs) (suc i) a b h = omega (arith, total-set xs i a b h)

  balance-le-total :
      (xs : List (AccountCurrent D)) (i : ℕ) (a : AccountCurrent D)
      → get_elem? xs i ≡ some a
      → a.balance ≤ total xs
  balance-le-total [] i a h = absurd (cc)
  balance-le-total (x ∷ xs) zero a h = ground arith
  balance-le-total (x ∷ xs) (suc i) a h = omega (arith, balance-le-total xs i a h)

  -- What a pair of picked accounts is to its universe.
  record IsPairOf (u : AccountUniverse D) (p : AccountPair D) : Type 0 where
    first : get_elem? u.accounts p.idx_1 ≡ some p.account_1
    second : get_elem? u.accounts p.idx_2 ≡ some p.account_2
    distinct : p.idx_1 ≢ p.idx_2

  pair_at-returns :
      (reverse : Bool) (u : AccountUniverse D) (low high : ℕ) {p : AccountPair D}
      → pair_at reverse u.accounts low high ≡ returns p
      → IsPairOf u p
  unfolding pair_at
  pair_at-returns reverse u low high h = ground arith

  pick_accounts-returns :
      (s : Sampling) (g : AccountPairGen s) (u : AccountUniverse D) {p : AccountPair D}
      {u' : AccountUniverse D}
      → pick_accounts s g u ≡ returns (p, u')
      → IsPairOf u p × (u'.accounts ≡ u.accounts)
  unfolding pick_accounts
  pick_accounts-returns s g u {p} {u'} h =
      let ((low, high, picker'), _, h₁) = >>=-eq-returns (Picker.pick_pair s g.pair u.picker) _ h in
      let (pair, at, h₂) = >>=-eq-returns (pair_at g.reverse u.accounts low high) _ h₁ in
      let e : (pair, record u { picker = picker' }) ≡ (p, u') = returns-injective h₂ in
      (
        subst (IsPairOf u) (ap (λ r. r.0) e) (pair_at-returns g.reverse u low high at),
        sym (ap (λ r. r.1.accounts) e),
      )

  -- Writing both accounts of a pair changes the total by what the two change.
  total-write_pair :
      (u v : AccountUniverse D) (p : AccountPair D) (a b : AccountCurrent D)
      → IsPairOf u p
      → v.accounts ≡ u.accounts
      → total (write_pair (record p { account_1 = a; account_2 = b }) v).accounts
          + p.account_1.balance
          + p.account_2.balance
        ≡ total u.accounts + a.balance + b.balance
  unfolding write_pair
  total-write_pair u v p a b h e = rw e (
      omega (
        arith,
        total-set u.accounts p.idx_1 p.account_1 a h.first,
        total-set (set u.accounts p.idx_1 a) p.idx_2 p.account_2 b
            (get_elem?-set_ne u.accounts p.idx_1 p.idx_2 a h.distinct ∙ h.second),
      ))

-- The whole universe has room for the transfer.
pub record HasRoom {D : Type 0} (costs : GasCosts) (u : AccountUniverse D) (amount : ℕ)
    : Type 0 where
  pub word : total u.accounts + amount + costs.peer_to_peer * unit_gas_price < u64_mod
  pub low_gas : costs.peer_to_peer_too_low ≤ costs.peer_to_peer

-- The universe after the transfer between a pair of its accounts.
abbrev settled : {D : Type 0} → GasCosts → AccountUniverse D → AccountPair D → ℕ → AccountUniverse D
settled costs v p amount =
    let r = transfer costs p.account_1 p.account_2 amount unit_gas_price in
    write_pair (record p { account_1 = r.sender; account_2 = r.receiver }) v

settled-Fits :
    {D : Type 0} (costs : GasCosts) (u : AccountUniverse D) (p : AccountPair D) (amount : ℕ)
    → HasRoom costs u amount
    → IsPairOf u p
    → Fits costs p.account_1 p.account_2 amount unit_gas_price
settled-Fits costs u p amount room pair =
    let first = balance-le-total u.accounts p.idx_1 p.account_1 pair.first in
    let second = balance-le-total u.accounts p.idx_2 p.account_2 pair.second in
    record {
      sender_word = omega (arith, room.word);
      receiver_word = omega (arith, room.word);
      total_word = omega (arith, room.word);
      low_gas = mul-le-mul_right 100 room.low_gas;
    }

settled_conserves :
    {D : Type 0} (costs : GasCosts) (u v : AccountUniverse D) (p : AccountPair D) (amount : ℕ)
    → HasRoom costs u amount
    → IsPairOf u p
    → v.accounts ≡ u.accounts
    → (total (settled costs v p amount).accounts
          + (transfer costs p.account_1 p.account_2 amount unit_gas_price).gas_used * unit_gas_price
        ≡ total u.accounts)
      × (length (settled costs v p amount).accounts ≡ length u.accounts)
unfolding write_pair
settled_conserves costs u v p amount room pair same =
    let r = transfer costs p.account_1 p.account_2 amount unit_gas_price in
    let kept =
      transfer_conserves costs p.account_1 p.account_2 amount unit_gas_price
        (settled-Fits costs u p amount room pair) in
    (
      omega (arith, kept.0, total-write_pair u v p r.sender r.receiver pair same),
      length-set (set v.accounts p.idx_1 r.sender) p.idx_2 r.receiver
          ∙ length-set v.accounts p.idx_1 r.sender
          ∙ ap length same,
    )

-- Where no word overflows and a failing transfer costs no more than a full one, the balances of
-- the universe after a transfer and the price of the reported gas add up to the balances before,
-- and no account is gained or lost.
pub apply_conserves :
    (costs : GasCosts) (api : AccountApi) (s : Sampling) (g : P2PTransferGen s)
    (u : AccountUniverse api.AccountData) {u' : AccountUniverse api.AccountData}
    {txn : SignedTransaction} {status : TransactionStatus} {gas : ℕ}
    → HasRoom costs u g.amount
    → apply costs api s g u ≡ returns (u', txn, status, gas)
    → (total u'.accounts + gas * unit_gas_price ≡ total u.accounts)
      × (length u'.accounts ≡ length u.accounts)
unfolding apply
apply_conserves costs api s g u {u'} {txn} {status} {gas} room h =
    let ((p, v), picked, h₁) = >>=-eq-returns (pick_accounts s g.sender_receiver u) _ h in
    let (pair, same) = pick_accounts-returns s g.sender_receiver u picked in
    let e = returns-injective h₁ in
    let kept = settled_conserves costs u v p g.amount room pair same in
    subst
      (λ r.
        (total r.0.accounts + r.3 * unit_gas_price ≡ total u.accounts)
        × (length r.0.accounts ≡ length u.accounts))
      e kept

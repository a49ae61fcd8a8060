-- ===== src/Universe/Transfer/Totality.antt =====
-- A transfer in an unlimited universe returns for every two indexes that the sampling helper
-- returns in rising order.
use test_suites.Prelude.{
  ℕ, ◌<◌, ◌≡◌, refl, Bool, List, [], ◌∷◌, arith, lt→ltb, if◌then◌else◌, length, get_elem?-total,
  All, subst,
}
use test_suites.Prelude.Outcome.{returns, >>=-total}
use test_suites.Transactions.{SignedTransaction}
use test_suites.Universe.Account.{AccountApi, GasCosts, AccountCurrent, TransactionStatus}
use test_suites.Universe.Picker.{Sampling, AccountPicker, pick_pair, pick_pair_impl, ordered_pair}
use test_suites.Universe.Population.{AccountUniverse, AccountPair, pick_accounts, pair_at}
use test_suites.Universe.Transfer.{P2PTransferGen, apply}

pair_at_returns :
    {D : Type 0} (reverse : Bool) (accounts : List (AccountCurrent D)) (i j : ℕ)
    → i < j
    → j < length accounts
    → (p : AccountPair D) × (pair_at reverse accounts i j ≡ returns p)
unfolding pair_at
pair_at_returns reverse accounts i j lt bound =
    let (a, at_i) = get_elem?-total accounts i (omega arith) in
    let (b, at_j) = get_elem?-total accounts j bound in
    (
      if reverse
          then record { idx_1 = j; idx_2 = i; account_1 = b; account_2 = a }
          else record { idx_1 = i; idx_2 = j; account_1 = a; account_2 = b },
      rw (lt→ltb i j lt, at_i, at_j) refl,
    )

-- A transfer does not panic where the picker is unlimited over exactly the accounts of the universe
-- and the helper picks two positions in rising order.
pub apply_returns :
    (costs : GasCosts) (api : AccountApi) (s : Sampling) (g : P2PTransferGen s)
    (u : AccountUniverse api.AccountData) (i j : ℕ)
    → u.picker ≡ AccountPicker.unlimited (length u.accounts)
    → s.pick_slice_idxs (length u.accounts) g.sender_receiver.pair ≡ i ∷ j ∷ []
    → i < j
    → (r : AccountUniverse api.AccountData × SignedTransaction × TransactionStatus × ℕ) × (apply
          costs api s g u
        ≡ returns r)
unfolding apply pick_accounts pick_pair pick_pair_impl ordered_pair
apply_returns costs api s g u i j style picked lt =
    let bounds =
      subst (All (λ k. k < length u.accounts)) picked
        (s.pick_slice_idxs_bound (length u.accounts) g.sender_receiver.pair) in
    let (p, at) = pair_at_returns g.sender_receiver.reverse u.accounts i j lt bounds.1.0 in
    >>=-total (pick_accounts s g.sender_receiver u) _ {a = (p, u)} (ground (arith, at))
      (λ x. (_, refl))

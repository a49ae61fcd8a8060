-- ===== src/Simulator/Erc20/Numbers.antt =====
-- The transfers of a graph carry, for each account, its sequence number and those that follow it.
use test_suites.Prelude.{
  ℕ, ◌+◌, ◌-◌, ◌%◌, ◌<◌, ◌≡◌, refl, sym, ap, subst, ◌∙◌, List, [], ◌∷◌, some, none, ◌==◌,
  if◌then◌else◌, map, get_elem?, All, All-get_elem?, arith,
}
use test_suites.Prelude.Words.{add64, u64_mod}
use test_suites.Prelude.Maps.{Dict, lookup, insert, lookup-insert}
use test_suites.Prelude.Outcome.{
  returns, >>=-eq-returns, returns-injective, unwrap, unwrap-eq-returns,
}
use test_suites.Transactions.{SignedTransaction, peer_to_peer_txn}
use test_suites.Universe.Account.{AccountApi, AccountCurrent}
use test_suites.Universe.Population.{AccountUniverse}
use test_suites.Universe.Picker.History.{count}
use test_suites.Simulator.Erc20.{next_number, gen_from, gen_transaction_for_erc20}

-- The number of an account before anything is generated.
abbrev pub own : {D : Type 0} → List (AccountCurrent D) → ℕ → ℕ
own accounts i = elim (get_elem? accounts i) [ none ↦ 0 | some a ↦ a.sequence_number ]

-- Each edge's number: its sender's own and one more for each edge before it from the same sender.
abbrev pub expected_numbers :
    {D : Type 0} → List (AccountCurrent D) → List ℕ → List (ℕ × ℕ) → List ℕ
expected_numbers accounts seen [] = []
expected_numbers accounts seen (edge ∷ rest) =
    (own accounts edge.0 + count edge.0 seen) % u64_mod
    ∷ expected_numbers accounts (edge.0 ∷ seen) rest

module _ (api : AccountApi) (accounts : List (AccountCurrent api.AccountData)) where
  open api use {AccountData}

  -- The map after the edges from `seen`.
  abbrev IsSeen : List ℕ → Dict ℕ → Type 0
  IsSeen seen m =
      (i : ℕ)
      → lookup i m
        ≡ (if count i seen == 0 then none else some ((own accounts i + count i seen - 1) % u64_mod))

  next-expected :
      (seen : List ℕ) (m : Dict ℕ) (i : ℕ) (a : AccountCurrent AccountData)
      → IsSeen seen m
      → get_elem? accounts i ≡ some a
      → a.sequence_number < u64_mod
      → next_number (lookup i m) a.sequence_number ≡ (own accounts i + count i seen) % u64_mod
  unfolding next_number add64
  next-expected seen m i a inv at word = ground (arith, inv i, at, word)

  IsSeen-insert :
      (seen : List ℕ) (m : Dict ℕ) (i : ℕ)
      → IsSeen seen m
      → IsSeen (i ∷ seen) (insert i ((own accounts i + count i seen) % u64_mod) m)
  IsSeen-insert seen m i inv j =
      ground (arith, inv j, lookup-insert i j ((own accounts i + count i seen) % u64_mod) m)

  gen_from-numbers :
      (graph : List (ℕ × ℕ)) (seen : List ℕ) (m : Dict ℕ) {txns : List SignedTransaction}
      → All (λ a. a.sequence_number < u64_mod) accounts
      → IsSeen seen m
      → gen_from api accounts graph m ≡ returns txns
      → map (λ t. t.sequence_number) txns ≡ expected_numbers accounts seen graph
  unfolding gen_from peer_to_peer_txn
  gen_from-numbers [] seen m words inv h = rw (sym (returns-injective h)) refl
  gen_from-numbers (edge ∷ rest) seen m {txns} words inv h =
      let (a, at, h₁) = >>=-eq-returns (unwrap (get_elem? accounts edge.0)) _ h in
      let (b, _, h₂) = >>=-eq-returns (unwrap (get_elem? accounts edge.1)) _ h₁ in
      let number = next_number (lookup edge.0 m) a.sequence_number in
      let (ts, more, h₃) =
        >>=-eq-returns (gen_from api accounts rest (insert edge.0 number m)) _ h₂ in
      let found = unwrap-eq-returns (get_elem? accounts edge.0) at in
      let due : number ≡ (own accounts edge.0 + count edge.0 seen) % u64_mod =
        next-expected seen m edge.0 a inv found
          (All-get_elem? (λ a. a.sequence_number < u64_mod) accounts edge.0 a words found) in
      let later =
        gen_from-numbers rest (edge.0 ∷ seen) (insert edge.0 number m) words
          (subst (λ n. IsSeen (edge.0 ∷ seen) (insert edge.0 n m)) (sym due)
            (IsSeen-insert seen m edge.0 inv))
          more in
      let e : peer_to_peer_txn (api.address a.initial_data) (api.address b.initial_data) number 1
              100
            ∷ ts
          ≡ txns =
        returns-injective h₃ in
      ap (map (λ t. t.sequence_number)) (sym e)
      ∙ ap (λ n. n ∷ map (λ t. t.sequence_number) ts) due
      ∙ ap (λ ns. (own accounts edge.0 + count edge.0 seen) % u64_mod ∷ ns) later

-- Where the accounts' numbers are words, the transfers generated from a graph carry, one for each
-- edge and in order, the number of the edge's sender plus the count of the earlier edges from it,
-- as words.
pub erc20_numbers :
    (api : AccountApi) (u : AccountUniverse api.AccountData) (graph : List (ℕ × ℕ))
    {txns : List SignedTransaction}
    → All (λ a. a.sequence_number < u64_mod) u.accounts
    → gen_transaction_for_erc20 api u graph ≡ returns txns
    → map (λ t. t.sequence_number) txns ≡ expected_numbers u.accounts [] graph
unfolding gen_transaction_for_erc20
erc20_numbers api u graph words h = gen_from-numbers api u.accounts graph [] [] words (λ i. refl) h

-- ===== src/Universe/Assertions/Verified.antt =====
-- What a run that passes its assertions has established.
use test_suites.Prelude.{
  ◌≡◌, refl, sym, ap, subst, Bool, true, false, List, [], ◌∷◌, ◌==◌, ==_iff, length, All, arith,
}
use test_suites.Prelude.Attempt.{Attempt, ok, err, panicked, ◌>>◌, >>=-eq-ok, ok-injective}
use test_suites.Universe.Account.{AccountApi, AccountCurrent}
use test_suites.Universe.Population.{AccountUniverseGen, setup, setup_gas_cost_stability}
use test_suites.Fake.{Crates, FakeExecutor, apply_write_set}
use test_suites.Fake.Modes.{execute_block, BlockResult}
use test_suites.Universe.Assertions.{
  TestFailure, Harness, Universe, Expected, unwrap_block, prop_assert, apply_all, add_accounts,
  check_gas, check_and_apply, read_account, read_coin_store, assert_account_matches,
  assert_accounts_match, run_and_assert_universe, run_and_assert_gas_cost_stability,
}

module _ (api : AccountApi) (k : Crates) (h : Harness api k) where
  open k use {Output}
  open api use {AccountData}
  open h use {TransactionGen}

  -- Each output has the status of its expectation, and there are as many of both.
  abbrev pub StatusesAgree : List Output → List (Expected api k h) → Type 0
  StatusesAgree [] [] = Unit
  StatusesAgree [] (x ∷ xs) = ⊥
  StatusesAgree (o ∷ os) [] = ⊥
  StatusesAgree (o ∷ os) (x ∷ xs) =
      (h.transaction_status_eq (k.status o) x.0 ≡ true) × StatusesAgree os xs

  -- As far as both go, each output has the status and the gas of its expectation.
  abbrev pub CostsAgree : List Output → List (Expected api k h) → Type 0
  CostsAgree [] xs = Unit
  CostsAgree (o ∷ os) [] = Unit
  CostsAgree (o ∷ os) (x ∷ xs) =
      (h.transaction_status_eq (k.status o) x.0 ≡ true) × (k.gas_used o ≡ x.1) × CostsAgree os xs

  abbrev pub applied : List Output → FakeExecutor k → FakeExecutor k
  applied [] e = e
  applied (o ∷ os) e = applied os (apply_write_set k (k.write_set o) e)

  -- The store has the key, the balance and the number of an account.
  abbrev pub IsStored : FakeExecutor k → AccountCurrent AccountData → Type 0
  IsStored e a =
      (resource : h.AccountResource) × (coin_store : h.CoinStoreResource) × (read_account api k h
          (api.address a.initial_data) e
        ≡ ok resource)
      × (read_coin_store api k h (api.address a.initial_data) e ≡ ok coin_store)
      × (h.auth_key a.initial_data ≡ h.authentication_key resource)
      × (a.balance ≡ h.coin coin_store)
      × (a.sequence_number ≡ h.sequence_number resource)

  prop_assert-passed :
      {A : Type 0} (b : Bool) (later : Attempt TestFailure A) {a : A}
      → (prop_assert api k h b >> later) ≡ ok a
      → (b ≡ true) × (later ≡ ok a)
  prop_assert-passed true later i = (refl, i)
  prop_assert-passed false later i = absurd (cc)

  >>-passed :
      {A : Type 0} (first : Attempt TestFailure (Unit {0})) (later : Attempt TestFailure A) {a : A}
      → (first >> later) ≡ ok a
      → (first ≡ ok tt) × (later ≡ ok a)
  >>-passed (ok tt) later i = (refl, i)
  >>-passed (err e) later i = absurd (cc)
  >>-passed panicked later i = absurd (cc)

  prop_assert-eq : (b : Bool) → prop_assert api k h b ≡ ok tt → b ≡ true
  prop_assert-eq true i = refl
  prop_assert-eq false i = absurd (cc)

  unwrap_block-eq :
      (r : BlockResult k) {os : List Output} → unwrap_block api k h r ≡ ok os → r ≡ ok os
  unwrap_block-eq (ok os) i = ap ok (ok-injective i)
  unwrap_block-eq (err e) i = absurd (cc)
  unwrap_block-eq panicked i = absurd (cc)

  assert_account_matches-IsStored :
      (a : AccountCurrent AccountData) (e : FakeExecutor k)
      → assert_account_matches api k h a e ≡ ok tt
      → IsStored e a
  unfolding assert_account_matches
  assert_account_matches-IsStored a e i =
      let addr = api.address a.initial_data in
      let (resource, read, i₁) = >>=-eq-ok (read_account api k h addr e) _ i in
      let (coin_store, read_coin, i₂) = >>=-eq-ok (read_coin_store api k h addr e) _ i₁ in
      let (auth, i₃) =
        prop_assert-passed (h.auth_key a.initial_data == h.authentication_key resource) _ i₂ in
      let (balance, i₄) = prop_assert-passed (a.balance == h.coin coin_store) _ i₃ in
      let number = prop_assert-eq (a.sequence_number == h.sequence_number resource) i₄ in
      (
        resource,
        coin_store,
        read,
        read_coin,
        (==_iff _ _).0 auth,
        (==_iff _ _).0 balance,
        (==_iff _ _).0 number,
      )

  assert_accounts_match-IsStored :
      (accounts : List (AccountCurrent AccountData)) (e : FakeExecutor k)
      → assert_accounts_match api k h accounts e ≡ ok tt
      → All (IsStored e) accounts
  unfolding assert_accounts_match
  assert_accounts_match-IsStored [] e i = tt
  assert_accounts_match-IsStored (a ∷ rest) e i =
      let (first, later) = >>-passed (assert_account_matches api k h a e) _ i in
      (assert_account_matches-IsStored a e first, assert_accounts_match-IsStored rest e later)

  check_and_apply-StatusesAgree :
      (os : List Output) (xs : List (Expected api k h)) (e e' : FakeExecutor k)
      → length os ≡ length xs
      → check_and_apply api k h os xs e ≡ ok e'
      → StatusesAgree os xs × (applied os e ≡ e')
  unfolding check_and_apply
  check_and_apply-StatusesAgree [] [] e e' n i = (tt, ok-injective i)
  check_and_apply-StatusesAgree [] (x ∷ xs) e e' n i = absurd (omega arith)
  check_and_apply-StatusesAgree (o ∷ os) [] e e' n i = absurd (omega arith)
  check_and_apply-StatusesAgree (o ∷ os) (x ∷ xs) e e' n i =
      let (same, later) = prop_assert-passed (h.transaction_status_eq (k.status o) x.0) _ i in
      let (agree, final) =
        check_and_apply-StatusesAgree os xs (apply_write_set k (k.write_set o) e) e' (omega arith)
          later in
      ((same, agree), final)

  check_gas-CostsAgree :
      (os : List Output) (xs : List (Expected api k h))
      → check_gas api k h os xs ≡ ok tt
      → CostsAgree os xs
  unfolding check_gas
  check_gas-CostsAgree [] xs i = tt
  check_gas-CostsAgree (o ∷ os) [] i = tt
  check_gas-CostsAgree (o ∷ os) (x ∷ xs) i =
      let (same, later) = prop_assert-passed (h.transaction_status_eq (k.status o) x.0) _ i in
      let (gas, rest) = prop_assert-passed (k.gas_used o == x.1) _ later in
      (same, (==_iff _ _).0 gas, check_gas-CostsAgree os xs rest)

  -- A run that passes: the generated transactions, executed over the added accounts, have one
  -- output for each expectation, with its status, and after the writes of all outputs the store has
  -- the key, the balance and the sequence number that every account of the universe has after the
  -- generators.
  pub run_and_assert_universe-IsVerified :
      (parallel_enabled : Bool) (universe : AccountUniverseGen AccountData)
      (gens : List TransactionGen) (genesis : FakeExecutor k)
      → run_and_assert_universe api k h parallel_enabled universe gens genesis ≡ ok tt
      → (txns : List k.SignedTransaction) × (expected : List (Expected api k h)) × (u : Universe api
          k h)
        × (outputs : List Output) × (apply_all api k h gens (setup api universe []).0
            ≡ ok (txns, expected, u))
        × (execute_block k parallel_enabled txns
              (add_accounts api k h (setup api universe []).1 genesis)
            ≡ ok outputs)
        × StatusesAgree outputs expected
        × All
            (IsStored (applied outputs (add_accounts api k h (setup api universe []).1 genesis)))
            u.accounts
  unfolding run_and_assert_universe
  run_and_assert_universe-IsVerified parallel_enabled universe gens genesis i =
      let executor = add_accounts api k h (setup api universe []).1 genesis in
      let ((txns, expected, u), made, i₁) =
        >>=-eq-ok (apply_all api k h gens (setup api universe []).0) _ i in
      let (outputs, ran, i₂) =
        >>=-eq-ok (unwrap_block api k h (execute_block k parallel_enabled txns executor)) _ i₁ in
      let (as_many, i₃) = prop_assert-passed (length outputs == length expected) _ i₂ in
      let (e', checked, i₄) = >>=-eq-ok (check_and_apply api k h outputs expected executor) _ i₃ in
      let (agree, final) =
        check_and_apply-StatusesAgree outputs expected executor e' ((==_iff _ _).0 as_many)
          checked in
      (
        txns,
        expected,
        u,
        outputs,
        made,
        unwrap_block-eq (execute_block k parallel_enabled txns executor) ran,
        agree,
        subst (λ e. All (IsStored e) u.accounts) (sym final)
            (assert_accounts_match-IsStored u.accounts e' i₄),
      )

  -- A run for the stability of the gas cost that passes: as far as the outputs and the expectations
  -- of the generated transactions both go, each output has the expected status and gas.
  pub run_and_assert_gas-CostsAgree :
      (parallel_enabled : Bool) (universe : AccountUniverseGen AccountData)
      (gens : List TransactionGen) (genesis : FakeExecutor k)
      → run_and_assert_gas_cost_stability api k h parallel_enabled universe gens genesis ≡ ok tt
      → (txns : List k.SignedTransaction) × (expected : List (Expected api k h)) × (u : Universe api
          k h)
        × (outputs : List Output) × (apply_all api k h gens
              (setup_gas_cost_stability api universe []).0
            ≡ ok (txns, expected, u))
        × (execute_block k parallel_enabled txns
              (add_accounts api k h (setup_gas_cost_stability api universe []).1 genesis)
            ≡ ok outputs)
        × CostsAgree outputs expected
  unfolding run_and_assert_gas_cost_stability
  run_and_assert_gas-CostsAgree parallel_enabled universe gens genesis i =
      let executor = add_accounts api k h (setup_gas_cost_stability api universe []).1 genesis in
      let ((txns, expected, u), made, i₁) =
        >>=-eq-ok (apply_all api k h gens (setup_gas_cost_stability api universe []).0) _ i in
      let (outputs, ran, i₂) =
        >>=-eq-ok (unwrap_block api k h (execute_block k parallel_enabled txns executor)) _ i₁ in
      (
        txns,
        expected,
        u,
        outputs,
        made,
        unwrap_block-eq (execute_block k parallel_enabled txns executor) ran,
        check_gas-CostsAgree outputs expected i₂,
      )

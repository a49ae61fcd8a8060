-- ===== src/Sui/Driver/Checkpointed.antt =====
-- The checkpoints of `benchmark_checkpoint_executor`.
use test_suites.Prelude.{
  ℕ, zero, suc, ◌<◌, ◌≡◌, refl, sym, ap, subst, ◌∙◌, Bool, true, false, some, List, [], ◌∷◌, map,
  All, get_elem?, if◌then◌else◌, if_both, ◌==◌, arith,
}
use test_suites.Prelude.Maps.{Dict, lookup, insert, lookup-insert}
use test_suites.Prelude.Outcome.{
  returns, ◌>>=◌, ◌>>◌, >>=-eq-returns, returns-injective, unwrap, ensure,
}
use test_suites.Sui.Accounts.Ids.{Distinct}
use test_suites.Sui.Effects.{TransactionEffects}
use test_suites.Sui.Node.{Validator, run_tasks}
use test_suites.Sui.Store.{ObjectApi, InMemoryObjectStore, read_objects_for_execution}
use test_suites.Sui.Checkpoints.{Builder, build_checkpoints}
use test_suites.Sui.Checkpoints.Totality.{IsKnown, build_checkpoints-returns}
use test_suites.Sui.Checkpoints.Partition.{IsPartition, build_checkpoints-IsPartition}
use test_suites.Sui.Memory.{
  Executor, unwrap_result, execute_transaction_in_memory, execute_transactions_in_memory,
  has_shared_object,
}
use test_suites.Sui.Driver.{by_digest, execute_and_build}

-- What follows an assertion that holds.
passed : {A : Type 0} (t : Bool) {a r : A} → (ensure t >> returns a) ≡ returns r → a ≡ r
passed false done = absurd (cc)
passed true done = returns-injective done

module _ (v : Validator) (api : ObjectApi) (x : Executor v api)
    (schedule : (T : Type 0) → List T → List T) where
  -- One of the effects is the transaction's.
  abbrev IsExecuted : List TransactionEffects → v.Certificate → Type 0
  IsExecuted results c =
      (i : ℕ) × (e : TransactionEffects) × (get_elem? results i ≡ some e)
      × (e.transaction_digest ≡ x.digest c)

  IsExecuted-cons :
      (e : TransactionEffects) (results : List TransactionEffects) (certs : List v.Certificate)
      → All (IsExecuted results) certs
      → All (IsExecuted (e ∷ results)) certs
  IsExecuted-cons e results [] h = tt
  IsExecuted-cons e results (c ∷ certs) ((i, e', at, same), h) =
      ((suc i, e', at, same), IsExecuted-cons e results certs h)

  digest-execute :
      (store : InMemoryObjectStore api) (c : v.Certificate) {e : TransactionEffects}
      {store' : InMemoryObjectStore api}
      → execute_transaction_in_memory v api x schedule store c ≡ returns (e, store')
      → e.transaction_digest ≡ x.digest c
  unfolding execute_transaction_in_memory
  digest-execute store c done =
      let (kinds, _, done₁) = >>=-eq-returns (unwrap (x.input_objects c)) _ done in
      let (read, store₁) = read_objects_for_execution api (x.shared_locks c) store kinds in
      let (objects, _, done₂) = >>=-eq-returns (unwrap_result read) _ done₁ in
      let (inputs, _, done₃) =
        >>=-eq-returns (unwrap (x.check_certificate_input c objects)) _ done₂ in
      let (temp, effects, store₂) = x.execute_transaction_to_effects store₁ c inputs in
      ap (λ p. p.0.transaction_digest) (sym (passed effects.is_ok done₃))
      ∙ x.transaction_digest-execute store₁ c inputs

  run_tasks-IsExecuted :
      (store : InMemoryObjectStore api) (certs : List v.Certificate)
      {results : List TransactionEffects} {end : InMemoryObjectStore api}
      → run_tasks (execute_transaction_in_memory v api x schedule) store certs
        ≡ returns (results, end)
      → All (IsExecuted results) certs
  unfolding run_tasks
  run_tasks-IsExecuted store [] done = tt
  run_tasks-IsExecuted store (c ∷ certs) done =
      let ((e, store₁), first, done₁) =
        >>=-eq-returns (execute_transaction_in_memory v api x schedule store c) _ done in
      let ((rest, store₂), later, done₂) =
        >>=-eq-returns (run_tasks (execute_transaction_in_memory v api x schedule) store₁ certs) _
          done₁ in
      subst (λ p. All (IsExecuted p.0) (c ∷ certs)) (returns-injective done₂)
        (
          (zero, e, refl, digest-execute store c first),
          IsExecuted-cons e rest certs (run_tasks-IsExecuted store₁ certs later),
        )

  module _ (b : Builder) (as_transaction : v.Certificate → b.Transaction)
      (as_effects : TransactionEffects → b.Effects) where
    abbrev pub dict : List TransactionEffects → Dict b.Effects → Dict b.Effects
    dict = by_digest v api x schedule b as_transaction as_effects

    by_digest-keeps :
        (k : ℕ) (results : List TransactionEffects) (m : Dict b.Effects) {f : b.Effects}
        → lookup k m ≡ some f
        → (g : b.Effects) × (lookup k (dict results m) ≡ some g)
    unfolding by_digest
    by_digest-keeps k [] m {f} found = (f, found)
    by_digest-keeps k (e ∷ results) m {f} found =
        let d = e.transaction_digest in
        let (g, there) =
          if_both (λ o. (g : b.Effects) × (o ≡ some g)) (d == k) (some (as_effects e)) (lookup k m)
            (λ _. (as_effects e, refl)) (λ _. (f, found)) in
        by_digest-keeps k results (insert d (as_effects e) m)
          (lookup-insert d k (as_effects e) m ∙ there)

    by_digest-found :
        (results : List TransactionEffects) (m : Dict b.Effects) (i : ℕ) {e : TransactionEffects}
        → get_elem? results i ≡ some e
        → (g : b.Effects) × (lookup e.transaction_digest (dict results m) ≡ some g)
    unfolding by_digest
    by_digest-found [] m i at = absurd (cc)
    by_digest-found (r ∷ results) m zero {e} at =
        let same : r ≡ e = cc in
        let d = r.transaction_digest in
        let here : lookup d (insert d (as_effects r) m) ≡ some (as_effects r) =
          ground (arith, lookup-insert d d (as_effects r) m) in
        subst (λ y. (g : b.Effects) × (lookup y.transaction_digest (dict (r ∷ results) m) ≡ some g))
          same (by_digest-keeps d results (insert d (as_effects r) m) here)
    by_digest-found (r ∷ results) m (suc i) at =
        by_digest-found results (insert r.transaction_digest (as_effects r) m) i at

    module _ (same_digest : (c : v.Certificate) → b.digest (as_transaction c) ≡ x.digest c) where
      digests :
          (certs : List v.Certificate)
          → map b.digest (map as_transaction certs) ≡ map x.digest certs
      digests [] = refl
      digests (c ∷ certs) =
          ap (λ d. d ∷ map b.digest (map as_transaction certs)) (same_digest c)
          ∙ ap (λ l. x.digest c ∷ l) (digests certs)

      executed-IsKnown :
          (results : List TransactionEffects) (certs : List v.Certificate)
          → All (IsExecuted results) certs
          → IsKnown b (dict results []) (map as_transaction certs)
      executed-IsKnown results [] h = tt
      executed-IsKnown results (c ∷ certs) ((i, e, at, same), h) =
          let (g, found) = by_digest-found results [] i at in
          (
            (g, ap (λ d. lookup d (dict results [])) (same_digest c ∙ sym same) ∙ found),
            executed-IsKnown results certs h,
          )

      -- Where every spawned task is collected, the builder holds nothing and sees the digests of
      -- the transactions, which are different, and the size is positive: whenever the execution in
      -- memory returns, in order or as tasks in any order, the checkpoints are built without a
      -- panic; they hold the transactions in their order, each with the effects that its digest
      -- has, and every checkpoint has exactly the size, except that the last may have fewer.
      pub execute_and_build-IsPartition :
          ((P : v.Certificate → Type 0) (certs : List v.Certificate)
            → All P (schedule v.Certificate certs)
            → All P certs)
          → (builder : b.State) (n : ℕ) (store : InMemoryObjectStore api)
            (certs : List v.Certificate) {results : List TransactionEffects}
            {end : InMemoryObjectStore api}
          → b.held builder ≡ []
          → Distinct (map x.digest certs)
          → 0 < n
          → execute_transactions_in_memory v api x schedule store certs ≡ returns (results, end)
          → (cs : List b.Checkpoint) × (execute_and_build v api x schedule b as_transaction
                as_effects builder n store certs
              ≡ returns cs)
            × IsPartition b n (map as_transaction certs) (dict results []) (map b.contents cs)
      unfolding execute_and_build execute_transactions_in_memory
      execute_and_build-IsPartition collected builder n store certs {results} {end} none_held
            distinct pos ran =
          let all : All (IsExecuted results) certs =
            by_order (has_shared_object v api x schedule certs) ran in
          let ts = map as_transaction certs in
          let known = executed-IsKnown results certs all in
          let (cs, built) =
            build_checkpoints-returns b builder ts (dict results []) n
              (subst Distinct (sym (digests certs)) distinct) known in
          (
            cs,
            ap (λ o. o >>= λ p. build_checkpoints b builder ts (dict p.0 []) n) ran ∙ built,
            build_checkpoints-IsPartition b builder ts (dict results []) n pos none_held built,
          )
        where
          by_order :
              (t : Bool)
              → run_tasks
                  (execute_transaction_in_memory v api x schedule)
                  store
                  (if t then certs else schedule v.Certificate certs)
                ≡ returns (results, end)
              → All (IsExecuted results) certs
          by_order true ran = run_tasks-IsExecuted store certs ran
          by_order false ran =
              collected (IsExecuted results) certs
                (run_tasks-IsExecuted store (schedule v.Certificate certs) ran)

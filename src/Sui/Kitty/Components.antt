-- ===== src/Sui/Kitty/Components.antt =====
-- `run_kitty_test` on each component.
use test_suites.Prelude.{
  suc, ◌<◌, ◌≡◌, refl, sym, ap, subst, ◌∙◌, Bool, true, false, if◌then◌else◌, ◌⊎◌, inl, inr, List,
  [], ◌∷◌, length, length-map, arith,
}
use test_suites.Prelude.Outcome.{Outcome, returns, ◌>>=◌, >>=-eq-returns, returns-injective}
use test_suites.Sui.Accounts.{Account}
use test_suites.Sui.Effects.{TransactionEffects}
use test_suites.Sui.Node.{
  Validator, Component, execution_only, baseline, with_tx_manager, validator_without_consensus,
  validator_with_fake_consensus, txn_signing, checkpoint_executor, execute_certificate, run_tasks,
  assigned_shared_object_versions,
}
use test_suites.Sui.Context.{
  BenchmarkContext, Call, provide_gene_calls, generate_kitty_provide_gene_transactions,
}
use test_suites.Sui.Preparations.{users}
use test_suites.Sui.Kitty.{
  is_signing, generate, generated, certify, certify_transactions, execute_certificates,
  certify_and_execute, benchmark_transaction_signing, run_kitty_test, breed_after,
}

-- `execute_certificate` is not made for the two others.
abbrev pub runs_kitties : Component → Bool
runs_kitties execution_only = false
runs_kitties checkpoint_executor = false
runs_kitties component = true

length-provide_gene_calls :
    (accounts : List Account) → length (provide_gene_calls accounts) ≡ length accounts
unfolding provide_gene_calls
length-provide_gene_calls [] = refl
length-provide_gene_calls (a ∷ accounts) = ap suc (length-provide_gene_calls accounts)

signs : (component : Component) → (runs_kitties component ≡ true) ⊎ (is_signing component ≡ false)
signs execution_only = inr refl
signs checkpoint_executor = inr refl
signs baseline = inr refl
signs with_tx_manager = inr refl
signs validator_without_consensus = inr refl
signs validator_with_fake_consensus = inr refl
signs txn_signing = inl refl

module _ (v : Validator) where
  -- Tasks that all return have as many results.
  pub length-run_tasks :
      {T R : Type 0} (task : v.Node → T → Outcome (R × v.Node)) (node : v.Node) (xs : List T)
      {rs : List R} {end : v.Node}
      → run_tasks task node xs ≡ returns (rs, end)
      → length rs ≡ length xs
  unfolding run_tasks
  length-run_tasks task node [] done = ap (λ p. length p.0) (sym (returns-injective done))
  length-run_tasks task node (x ∷ xs) done =
      let ((r, node₁), first, done₁) = >>=-eq-returns (task node x) _ done in
      let ((rest, node₂), after, done₂) = >>=-eq-returns (run_tasks task node₁ xs) _ done₁ in
      ap (λ p. length p.0) (sym (returns-injective done₂))
      ∙ ap suc (length-run_tasks task node₁ xs after)

  -- A task that returns was made for its component.
  first_task :
      (component : Component) (node : v.Node) (certs : List v.Certificate)
      {r : List TransactionEffects × v.Node}
      → 0 < length certs
      → run_tasks (execute_certificate v component) node certs ≡ returns r
      → runs_kitties component ≡ true
  unfolding run_tasks execute_certificate
  first_task component node [] some_cert done = absurd (omega arith)
  first_task execution_only node (c ∷ certs) some_cert done = absurd (cc)
  first_task checkpoint_executor node (c ∷ certs) some_cert done = absurd (cc)
  first_task baseline node (c ∷ certs) some_cert done = refl
  first_task with_tx_manager node (c ∷ certs) some_cert done = refl
  first_task validator_without_consensus node (c ∷ certs) some_cert done = refl
  first_task validator_with_fake_consensus node (c ∷ certs) some_cert done = refl
  first_task txn_signing node (c ∷ certs) some_cert done = refl

  module _ (generate_tx : Call → Outcome v.Transaction) (schedule : (T : Type 0) → List T → List T)
      (length-schedule : (T : Type 0) (xs : List T) → length (schedule T xs) ≡ length xs) where
    executed :
        (component : Component) (skip : Bool) (node : v.Node) (txs : List v.Transaction)
        {r : List TransactionEffects × v.Node}
        → 0 < length txs
        → certify_and_execute v generate_tx schedule component skip node txs ≡ returns r
        → runs_kitties component ≡ true
    unfolding certify_and_execute certify_transactions execute_certificates
    executed component skip node txs some_tx done =
        let ((certs, node₁), made, done₁) =
          >>=-eq-returns (certify_transactions v generate_tx schedule skip node txs) _ done in
        let (node₂, assigned, done₂) =
          >>=-eq-returns (assigned_shared_object_versions v node₁ certs) _ done₁ in
        let many =
          length-run_tasks (certify v generate_tx schedule skip) node (schedule v.Transaction txs)
            made in
        first_task component node₂ (schedule v.Certificate certs)
          (omega
            (arith, many, length-schedule v.Transaction txs, length-schedule v.Certificate certs))
          done₂

    -- Where all spawned tasks are collected and there is a user, the kitty test returns only for
    -- the components other than `ExecutionOnly` and `CheckpointExecutor`: for these two, which the
    -- command line offers, it does not return.
    pub run_kitty_test_components :
        (component : Component) (sample skip : Bool) (ctx : BenchmarkContext) (node : v.Node)
        {r : BenchmarkContext × v.Node}
        → 0 < length ctx.user_accounts
        → run_kitty_test v generate_tx schedule component sample skip ctx node ≡ returns r
        → runs_kitties component ≡ true
    unfolding run_kitty_test generated generate_kitty_provide_gene_transactions
    run_kitty_test_components component sample skip ctx node {r} some_user done =
        let calls = generate_kitty_provide_gene_transactions ctx in
        let ((txs, node₁), gen, done₁) =
          >>=-eq-returns (generated v generate_tx schedule node calls) _ done in
        let many =
          length-run_tasks (generate v generate_tx schedule) node (schedule Call calls) gen
          ∙ length-schedule Call calls
          ∙ length-provide_gene_calls (users ctx)
          ∙ length-map (λ entry. entry.1) ctx.user_accounts in
        elim (signs component) [
          | inl runs ↦ runs
          | inr other ↦
              let p = subst (continues skip ctx txs node₁ component sample) other done₁ in
              let (out, ran, _) =
                >>=-eq-returns (certify_and_execute v generate_tx schedule component skip node₁ txs)
                  _ p in
              executed component skip node₁ txs (omega (arith, many)) ran
        ]
      where
        continues :
            Bool → BenchmarkContext → List v.Transaction → v.Node → Component → Bool → Bool → Type 0
        continues skip ctx txs node₁ component sample b =
            (if b
              then (do
                node₂ ← benchmark_transaction_signing v generate_tx schedule sample node₁ txs
                returns (ctx, node₂))
              else (do
                (results, node₂) ←
                    certify_and_execute v generate_tx schedule component skip node₁ txs
                breed_after v generate_tx schedule component skip ctx node₂ results))
            ≡ returns r

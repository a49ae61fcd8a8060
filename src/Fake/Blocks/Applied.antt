-- ===== src/Fake/Blocks/Applied.antt =====
-- The effect of a block with metadata, and of the blocks that only move the time.
use test_suites.Prelude.{
  ℕ, ◌%◌, ◌≡◌, refl, sym, ap, subst, ◌∙◌, Bool, true, false, some, List, [], ◌∷◌, map,
  if◌then◌else◌, get_elem?, length,
}
use test_suites.Prelude.Words.{add64}
use test_suites.Prelude.Outcome.{
  Outcome, returns, panics, ◌>>◌, unwrap, >>=-eq-returns, returns-injective, unwrap-eq-returns,
}
use test_suites.Prelude.Attempt.{ok}
use test_suites.Fake.{Crates, FakeExecutor, apply_write_set, set_block_time}
use test_suites.Fake.Modes.{execute_transaction_block, unwrap_result}
use test_suites.Fake.Modes.Applies.{unwrap_result-eq}
use test_suites.Fake.Blocks.{
  Report, apply_outputs, check_new_block_event, run_block_with_metadata, new_block_with_metadata,
  new_block_with_timestamp, new_block,
}

module _ (k : Crates) where
  open k use {Output, SignedTransaction, Store}

  -- The store after the writes of the outputs that were not discarded, in order.
  abbrev pub settled : List Output → Store → Store
  settled [] s = s
  settled (o ∷ os) s =
      settled os (if k.is_discarded (k.status o) then s else k.add_write_set s (k.write_set o))

  abbrev pub report_of : Output → Report k
  report_of o = (k.status o, k.gas_used o)

  apply_outputs-settled :
      (os : List Output) (e : FakeExecutor k)
      → apply_outputs k os e ≡ (map report_of os, record e { data_store = settled os e.data_store })
  unfolding apply_outputs apply_write_set
  apply_outputs-settled [] e = refl
  apply_outputs-settled (o ∷ os) e =
      by_status (k.is_discarded (k.status o)) (λ u. apply_outputs-settled os u)
    where
      by_status :
          (b : Bool)
          → ((u : FakeExecutor k)
              → apply_outputs k os u
                ≡ (map report_of os, record u { data_store = settled os u.data_store }))
          → ◌≡◌ {A = List (Report k) × FakeExecutor k}
              (let (results, e') =
                  apply_outputs k os (if b then e else apply_write_set k (k.write_set o) e) in
                (report_of o ∷ results, e'))
              (
                report_of o ∷ map report_of os,
                record e {
                  data_store =
                      settled os
                        (if b then e.data_store else k.add_write_set e.data_store (k.write_set o));
                },
              )
      by_status true ih = ap (λ r. (report_of o ∷ r.0, r.1)) (ih e)
      by_status false ih =
          ap (λ r. (report_of o ∷ r.0, r.1)) (ih (apply_write_set k (k.write_set o) e))

  pub run_block_with_metadata-Applies :
      (parallel_enabled : Bool) (proposer : ℕ) (failed : List ℕ) (txns : List SignedTransaction)
      (e e' : FakeExecutor k) (results : List (Report k))
      → run_block_with_metadata k parallel_enabled proposer failed txns e ≡ returns (results, e')
      → (outputs : List Output) × (vs : List ℕ) × (k.validators e.data_store ≡ some vs)
        × (execute_transaction_block k parallel_enabled
              (k.block_metadata (k.new_metadata proposer (length vs % 65_536) failed e.block_time)
                ∷ map k.user_transaction txns)
              e
            ≡ ok outputs)
        × (check_new_block_event k outputs ≡ returns tt)
        × (map report_of outputs ≡ results)
        × (record e { data_store = settled outputs e.data_store } ≡ e')
  unfolding run_block_with_metadata
  run_block_with_metadata-Applies parallel_enabled proposer failed txns e e' results h =
      let (vs, found, h₁) = >>=-eq-returns (unwrap (k.validators e.data_store)) _ h in
      let block =
        k.block_metadata (k.new_metadata proposer (length vs % 65_536) failed e.block_time)
        ∷ map k.user_transaction txns in
      let (outputs, ran, h₂) =
        >>=-eq-returns (unwrap_result k (execute_transaction_block k parallel_enabled block e)) _
          h₁ in
      let (checked, h₃) = after_check (check_new_block_event k outputs) _ h₂ in
      let same = sym (apply_outputs-settled outputs e) ∙ returns-injective h₃ in
      (
        outputs,
        vs,
        unwrap-eq-returns (k.validators e.data_store) found,
        unwrap_result-eq k (execute_transaction_block k parallel_enabled block e) ran,
        checked,
        ap (λ x. x.0) same,
        ap (λ x. x.1) same,
      )
    where
      after_check :
          (c : Outcome (Unit {0})) (later : Outcome (List (Report k) × FakeExecutor k))
          → (c >> later) ≡ returns (results, e')
          → (c ≡ returns tt) × (later ≡ returns (results, e'))
      after_check (returns tt) later i = (refl, i)
      after_check panics later i = absurd (cc)

  -- A new block moves the time on by one microsecond, as a 64-bit word, runs a block of its
  -- metadata alone at the new time with the first validator as the proposer, and applies it;
  -- nothing but the time and the store changes.
  pub new_block-Advances :
      (parallel_enabled : Bool) (e e' : FakeExecutor k)
      → new_block k parallel_enabled e ≡ returns e'
      → (outputs : List Output) × (proposer : ℕ) × (vs : List ℕ) × (k.validators e.data_store
          ≡ some vs)
        × (get_elem? vs 0 ≡ some proposer)
        × (execute_transaction_block k parallel_enabled
              (k.block_metadata
                  (k.new_metadata proposer (length vs % 65_536) [] (add64 e.block_time 1))
                ∷ [])
              (record e { block_time = add64 e.block_time 1 })
            ≡ ok outputs)
        × (record e { block_time = add64 e.block_time 1; data_store = settled outputs e.data_store }
            ≡ e')
  unfolding new_block new_block_with_timestamp new_block_with_metadata set_block_time
  new_block-Advances parallel_enabled e e' h =
      let (vs, found, h₁) = >>=-eq-returns (unwrap (k.validators e.data_store)) _ h in
      let (proposer, first, h₂) = >>=-eq-returns (unwrap (get_elem? vs 0)) _ h₁ in
      let e₁ : FakeExecutor k = record e { block_time = add64 e.block_time 1 } in
      let ((results, e₂), ran, h₃) =
        >>=-eq-returns (run_block_with_metadata k parallel_enabled proposer [] [] e₁) _ h₂ in
      let (outputs, vs', found', answered, checked, reported, applied) =
        run_block_with_metadata-Applies parallel_enabled proposer [] [] e₁ e₂ results ran in
      (
        outputs,
        proposer,
        vs',
        found',
        subst (λ v. get_elem? v 0 ≡ some proposer)
            (some_injective (sym (unwrap-eq-returns (k.validators e.data_store) found) ∙ found'))
            (unwrap-eq-returns (get_elem? vs 0) first),
        answered,
        applied ∙ returns-injective h₃,
      )
    where
      some_injective : {A : Type 0} {x y : A} → some x ≡ some y → x ≡ y
      some_injective i = cc

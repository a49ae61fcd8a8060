-- ===== src/Fake/Modes/Applies.antt =====
-- What `execute_and_apply` has established where it returns.
use test_suites.Prelude.{
  ◌≡◌, ◌↔◌, refl, ap, subst, ◌∙◌, Bool, true, false, List, [], ◌∷◌, ◌==◌, length, arith,
}
use test_suites.Prelude.Outcome.{
  Outcome, returns, ◌>>=◌, ◌>>◌, ensure, >>=-eq-returns, returns-injective,
}
use test_suites.Prelude.Attempt.{ok, err, panicked}
use test_suites.Fake.{
  Crates, FakeExecutor, TransactionStatus, keep, discard, retry, apply_write_set,
}
use test_suites.Fake.Modes.{
  BlockResult, execute_block, unwrap_result, pop_last, apply_kept, execute_and_apply,
}

module _ (k : Crates) where
  open k use {Output, SignedTransaction, Execution, Code}

  pub unwrap_result-eq :
      (r : BlockResult k) {os : List Output} → unwrap_result k r ≡ returns os → r ≡ ok os
  unwrap_result-eq (ok os) h = ap ok (returns-injective h)
  unwrap_result-eq (err e) h = absurd (cc)
  unwrap_result-eq panicked h = absurd (cc)

  -- A list of one output, from its length and its last element.
  singleton :
      (os : List Output) {A : Type 0} (next : Output → Outcome A) {a : A}
      → (ensure (length os == 1) >> (pop_last k os >>= next)) ≡ returns a
      → (o : Output) × (os ≡ o ∷ []) × (next o ≡ returns a)
  singleton [] next h = absurd (cc)
  singleton (o ∷ []) next h = (o, refl, h)
  singleton (o ∷ p ∷ os) {A} next {a} h = absurd (by_length h)
    where
      by_length :
          (ensure (length (o ∷ p ∷ os) == 1) >> (pop_last k (o ∷ p ∷ os) >>= next)) ≡ returns a → ⊥
      by_length e = ground arith

  apply_kept_iff :
      (o o' : Output) (status : TransactionStatus Execution Code) (e e' : FakeExecutor k)
      → (apply_kept k o status e ≡ returns (o', e'))
        ↔ ((status ≡ keep k.success) × (o ≡ o') × (apply_write_set k (k.write_set o) e ≡ e'))
  unfolding apply_kept
  apply_kept_iff o o' (keep status) e e' = (
    (λ h. forth (k.execution_eq.eq status k.success) refl h),
    (λ (same, out, applied).
        let kept : status ≡ k.success = cc in
        rw ((k.execution_eq.eq_iff status k.success).1 kept) (λ i. returns (out i, applied i))),
  )
    where
      forth :
          (b : Bool)
          → k.execution_eq.eq status k.success ≡ b
          → ◌≡◌ {A = Outcome (Output × FakeExecutor k)}
              (ensure b >> returns (o, apply_write_set k (k.write_set o) e))
              (returns (o', e'))
          → ◌≡◌ {A = TransactionStatus Execution Code} (keep status) (keep k.success)
            × (o ≡ o')
            × (apply_write_set k (k.write_set o) e ≡ e')
      forth true same h =
          let pair = returns-injective h in
          (
            ap keep ((k.execution_eq.eq_iff status k.success).0 same),
            ap (λ x. x.0) pair,
            ap (λ x. x.1) pair,
          )
      forth false same h = absurd (cc)
  apply_kept_iff o o' (discard code) e e' = ((λ h. absurd (cc)), (λ (same, _, _). absurd (cc)))
  apply_kept_iff o o' retry e e' = ((λ h. absurd (cc)), (λ (same, _, _). absurd (cc)))

  -- Executing and applying a transaction returns exactly where its block of one is answered by one
  -- output that was kept with success; that output is returned, and its writes, and nothing else,
  -- are applied to the executor.
  pub execute_and_apply_iff :
      (parallel_enabled : Bool) (txn : SignedTransaction) (e e' : FakeExecutor k) (o : Output)
      → (execute_and_apply k parallel_enabled txn e ≡ returns (o, e')) ↔ (
          (execute_block k parallel_enabled (txn ∷ []) e ≡ ok (o ∷ []))
          × (k.status o ≡ keep k.success)
          × (apply_write_set k (k.write_set o) e ≡ e'))
  unfolding execute_and_apply
  execute_and_apply_iff parallel_enabled txn e e' o = (
    (λ h.
        let (os, unwrapped, h₁) =
          >>=-eq-returns (unwrap_result k (execute_block k parallel_enabled (txn ∷ []) e)) _ h in
        let (o₁, one, h₂) = singleton os (λ x. apply_kept k x (k.status x) e) h₁ in
        let (kept, out, applied) = (apply_kept_iff o₁ o (k.status o₁) e e').0 h₂ in
        (
          unwrap_result-eq (execute_block k parallel_enabled (txn ∷ []) e) unwrapped
              ∙ ap ok (one ∙ ap (λ x. x ∷ []) out),
          subst (λ x. k.status x ≡ keep k.success) out kept,
          subst (λ x. apply_write_set k (k.write_set x) e ≡ e') out applied,
        )),
    (λ (answered, kept, applied).
        rw answered ((apply_kept_iff o o (k.status o) e e').1 (kept, refl, applied))),
  )

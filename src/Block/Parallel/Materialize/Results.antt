-- ===== src/Block/Parallel/Materialize/Results.antt =====
-- The final results and the calls on the hook after `materialize_txn_commit`.
use test_suites.Prelude.{
  ℕ, ◌≡◌, ◌≢◌, refl, sym, ap, ◌∙◌, Bool, true, false, Option, none, some, List, [], ◌∷◌, ◌++◌,
  if◌then◌else◌, ltb, length, get_elem?, set, get_elem?-set_self, get_elem?-set_ne, ltb→lt,
}
use test_suites.Prelude.Attempt.{Attempt, ok, panicked, >>=-eq-ok, ok-injective, unwrap}
use test_suites.Block.Status.{
  ExecutionStatus, success, skip_rest, abort, speculative_execution_abort_error,
  delayed_fields_code_invariant_error, PanicError, HookCall, on_transaction_committed,
  on_execution_aborted,
}
use test_suites.Block.Environment.{Environment}
use test_suites.Block.Parallel.{Versioned}
use test_suites.Block.Parallel.Materialize.{
  Materializing, Committing, call_of, notify_listener, store_at, store_result, materialize_output,
  materialize_txn_commit,
}

module _ (env : Environment) (v : Versioned env) (mat : Materializing env v) where
  open env use {Output, Error}
  open v use {Cache, Recorder}

  -- Reading the output of a transaction and taking it agree.
  abbrev pub TakesOutput : Type 0
  TakesOutput =
      (r : Recorder) (idx : ℕ) (status : ExecutionStatus Output Error)
      → mat.txn_output r idx ≡ some status
      → (mat.take_output r idx).0 ≡ status

  abbrev pub told : Bool → HookCall Output → List (HookCall Output) → List (HookCall Output)
  told has_hook call hooks = if has_hook then hooks ++ call ∷ [] else hooks

  -- An output is the result of its transaction, no other result changes, and the hook is told once
  -- of the same output.
  pub record IsKept (has_hook : Bool) (idx : ℕ) (output : Output) (s s' : Committing env v mat)
      : Type 0 where
    pub stored : get_elem? s'.final_results idx ≡ some output
    pub others : (j : ℕ) → idx ≢ j → get_elem? s'.final_results j ≡ get_elem? s.final_results j
    pub call : s'.hooks ≡ told has_hook (on_transaction_committed idx output) s.hooks

  -- No result changes, and the hook is told of the abort.
  pub record IsAborted (has_hook : Bool) (idx : ℕ) (s s' : Committing env v mat) : Type 0 where
    pub results : s'.final_results ≡ s.final_results
    pub call : s'.hooks ≡ told has_hook (on_execution_aborted idx) s.hooks

  pub data IsMaterialized (has_hook : Bool) (idx : ℕ) (s s' : Committing env v mat)
      : ExecutionStatus Output Error → Type 0 where
    of_success :
        {output : Output}
        → IsKept has_hook idx output s s'
        → IsMaterialized has_hook idx s s' (success output)
    of_skip_rest :
        {output : Output}
        → IsKept has_hook idx output s s'
        → IsMaterialized has_hook idx s s' (skip_rest output)
    of_abort :
        {e : Error} → IsAborted has_hook idx s s' → IsMaterialized has_hook idx s s' (abort e)

  unwrap-eq-ok : {A : Type 0} (o : Option A) {a : A} → unwrap {E = PanicError} o ≡ ok a → o ≡ some a
  unwrap-eq-ok none h = absurd (cc)
  unwrap-eq-ok (some x) h = ap some (ok-injective h)

  -- The hook is told of the status that is taken next.
  notify_listener-told :
      (takes : TakesOutput) (has_hook : Bool) (idx : ℕ) (r : Recorder)
      (hooks hooks' : List (HookCall Output))
      → notify_listener env v mat has_hook idx r hooks ≡ ok hooks'
      → (call : HookCall Output) → call_of env v mat idx (mat.take_output r idx).0 ≡ ok call
      → hooks' ≡ told has_hook call hooks
  unfolding notify_listener
  notify_listener-told takes false idx r hooks hooks' h call c = sym (ok-injective h)
  notify_listener-told takes true idx r hooks hooks' h call c =
      let (status, found, h₁) = >>=-eq-ok (unwrap (mat.txn_output r idx)) _ h in
      let (call', c', h₂) = >>=-eq-ok (call_of env v mat idx status) _ h₁ in
      let taken : (mat.take_output r idx).0 ≡ status =
        takes r idx status (unwrap-eq-ok (mat.txn_output r idx) found) in
      let same : call' ≡ call =
        ok-injective (sym c' ∙ (sym (ap (call_of env v mat idx) taken) ∙ c)) in
      sym (ok-injective h₂) ∙ ap (λ x. hooks ++ x ∷ []) same

  store_at-set :
      (idx : ℕ) (output : Output) (results results' : List Output)
      → store_at env v mat idx output results ≡ ok results'
      → (ltb idx (length results) ≡ true) × (results' ≡ set results idx output)
  unfolding store_at
  store_at-set idx output results results' h = by_test (ltb idx (length results)) h
    where
      by_test :
          (b : Bool)
          → ◌≡◌ {A = Attempt PanicError (List Output)}
              (if b then ok (set results idx output) else panicked)
              (ok results')
          → (b ≡ true) × (results' ≡ set results idx output)
      by_test true e = (refl, sym (ok-injective e))
      by_test false e = absurd (cc)

  store_at-IsKept :
      (has_hook : Bool) (idx : ℕ) (output : Output) (s s' : Committing env v mat)
      → store_at env v mat idx output s.final_results ≡ ok s'.final_results
      → s'.hooks ≡ told has_hook (on_transaction_committed idx output) s.hooks
      → IsKept has_hook idx output s s'
  store_at-IsKept has_hook idx output s s' h told_it =
      let (inside, stored) = store_at-set idx output s.final_results s'.final_results h in
      record {
        stored =
            ap (λ rs. get_elem? rs idx) stored
            ∙ get_elem?-set_self s.final_results idx output
                (ltb→lt idx (length s.final_results) inside);
        others = λ j ne.
            ap (λ rs. get_elem? rs j) stored ∙ get_elem?-set_ne s.final_results idx j output ne;
        call = told_it;
      }

  store_result-IsMaterialized :
      (has_hook : Bool) (idx : ℕ) (status : ExecutionStatus Output Error)
      (s s' : Committing env v mat)
      → store_result env v mat idx status s.final_results ≡ ok s'.final_results
      → ((call : HookCall Output)
          → call_of env v mat idx status ≡ ok call
          → s'.hooks ≡ told has_hook call s.hooks)
      → IsMaterialized has_hook idx s s' status
  unfolding store_result call_of
  store_result-IsMaterialized has_hook idx (success output) s s' h told_of =
      of_success (store_at-IsKept has_hook idx output s s' h (told_of _ refl))
  store_result-IsMaterialized has_hook idx (skip_rest output) s s' h told_of =
      of_skip_rest (store_at-IsKept has_hook idx output s s' h (told_of _ refl))
  store_result-IsMaterialized has_hook idx (abort e) s s' h told_of =
      of_abort (record { results = sym (ok-injective h); call = told_of _ refl })
  store_result-IsMaterialized has_hook idx (speculative_execution_abort_error msg) s s' h told_of =
      absurd (cc)
  store_result-IsMaterialized has_hook idx (delayed_fields_code_invariant_error msg) s s' h
        told_of =
      absurd (cc)

  -- Where reading the output of a transaction and taking it agree, a commit whose materialisation
  -- succeeds takes one output: if the transaction succeeded, that output becomes its final result
  -- and is what the hook, if there is one, is told, exactly once; if it aborted, the hook is told
  -- so; and no other final result changes.
  pub materialize_txn_commit-IsMaterialized :
      (takes : TakesOutput) (has_hook : Bool) (idx : ℕ) (s s' : Committing env v mat)
      → materialize_txn_commit env v mat has_hook idx s ≡ ok s'
      → (r : Recorder) × (mat.take_output r idx).1 ≡ s'.recorder
        × IsMaterialized has_hook idx s s' (mat.take_output r idx).0
  unfolding materialize_txn_commit
  materialize_txn_commit-IsMaterialized takes has_hook idx s s' h =
      let ((r, cache₁), _, h₁) =
        >>=-eq-ok (materialize_output env v mat idx s.recorder s.cache) _ h in
      let (hooks₁, told_it, h₂) =
        >>=-eq-ok (notify_listener env v mat has_hook idx r s.hooks) _ h₁ in
      let (results, kept, h₃) =
        >>=-eq-ok (store_result env v mat idx (mat.take_output r idx).0 s.final_results) _ h₂ in
      let same = ok-injective h₃ in
      (
        r,
        ap (λ u. u.recorder) same,
        store_result-IsMaterialized has_hook idx (mat.take_output r idx).0 s s'
            (kept ∙ ap (λ u. ok u.final_results) same)
            (λ call c.
              notify_listener-told takes has_hook idx r s.hooks s'.hooks
                (told_it ∙ ap (λ u. ok u.hooks) same) call c),
      )

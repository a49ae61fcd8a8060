-- ===== src/Block/Sequential/Advance.antt =====
-- What one iteration of sequential execution does to the outputs and to the calls on the hook.
use test_suites.Prelude.{
  ℕ, ◌≡◌, refl, ◌⊎◌, inl, inr, Bool, true, false, List, [], ◌∷◌, ◌++◌, arith, if◌then◌else◌,
  Bool-cases, append-nil, sym, ltb, ◌-◌,
}
use test_suites.Prelude.Attempt.{Attempt, ok, err, panicked}
use test_suites.Block.Status.{
  ExecutionStatus, success, skip_rest, abort, speculative_execution_abort_error,
  delayed_fields_code_invariant_error, BlockExecutionError, fatal_vm_error,
  fatal_block_executor_error, code_invariant_error, HookCall, on_transaction_committed,
  on_execution_aborted, delayed_materialization_code_invariant_error,
}
use test_suites.Block.Environment.{Environment}
use test_suites.Block.Sequential.{
  State, Flow, next, stop, fail, crash, Failure, notify, account_for, serialization_error,
  commit_output, after_push, push_output, discard_or_push, on_output, on_failure, dispatch, step,
}

-- The calls that an iteration makes on the hook, if there is one.
abbrev pub told : {O : Type 0} → Bool → HookCall O → List (HookCall O)
told has_hook call = if has_hook then call ∷ [] else []

module _ (env : Environment) (has_hook fallback : Bool) (idx : ℕ) where
  open env use {Txn, Output, Error, Reads}

  -- One output was pushed, and the hook was told of it unless the fallback discarded it.
  pub record Advance (ret : List Output) (hooks : List (HookCall Output)) (s' : State env)
      : Type 0 where
    pub output : Output
    pub pushed : s'.ret ≡ ret ++ output ∷ []
    pub called :
        (s'.hooks ≡ hooks ++ told has_hook (on_transaction_committed idx output))
        ⊎ ((fallback ≡ true)
            × (output ≡ env.discard_output delayed_materialization_code_invariant_error)
            × (s'.hooks ≡ hooks))

  -- Nothing was pushed; the hook was told of the abort or of nothing.
  pub record Aborts (ret : List Output) (hooks : List (HookCall Output)) (s' : State env)
      : Type 0 where
    pub kept : s'.ret ≡ ret
    pub called : (s'.hooks ≡ hooks ++ told has_hook (on_execution_aborted idx)) ⊎ (s'.hooks ≡ hooks)

  abbrev pub Does : List Output → List (HookCall Output) → Flow env → Type 0
  Does ret hooks (next s') = Advance ret hooks s'
  Does ret hooks (stop s') = Advance ret hooks s'
  Does ret hooks (fail s' e) = Aborts ret hooks s'
  Does ret hooks crash = Unit

  Does-after_push :
      (num_txns : ℕ) (must_skip : Bool) (ret : List Output) (hooks : List (HookCall Output))
      (s' : State env)
      → Advance ret hooks s'
      → Does ret hooks (after_push env num_txns idx must_skip s')
  unfolding after_push
  Does-after_push n true ret hooks s' h = h
  Does-after_push n false ret hooks s' h = elim (Bool-cases (ltb idx (n - 1))) [
    | inl more ↦ rw more (elim (Bool-cases (env.should_end_block_sequential s'.limit)) [
      | inl full ↦ rw full h
      | inr room ↦ rw room h
    ])
    | inr last ↦ rw last h
  ]

  notify_hooks :
      (call : HookCall Output) (s : State env)
      → (notify env has_hook call s).hooks ≡ s.hooks ++ told has_hook call
  unfolding notify
  notify_hooks call s = elim (Bool-cases has_hook) [
    | inl yes_hook ↦ rw yes_hook
    | inr no_hook ↦ rw no_hook (sym (append-nil s.hooks))
  ]

  notify_ret : (call : HookCall Output) (s : State env) → (notify env has_hook call s).ret ≡ s.ret
  unfolding notify
  notify_ret call s = ground arith

  Does-push_output :
      (num_txns : ℕ) (must_skip : Bool) (s : State env) (reads : Reads) (output : Output)
      → Does s.ret s.hooks (push_output env has_hook num_txns idx must_skip s reads output)
  unfolding push_output
  Does-push_output n must_skip s reads output = go (commit_output env s.values reads output)
    where
      go :
          (c : Attempt (Failure env) (env.Map × Output))
          → Does s.ret s.hooks (elim c [
            | ok (m', output') ↦
                let s' = record s { values = m'; ret = s.ret ++ output' ∷ [] } in
                after_push env n idx must_skip
                  (notify env has_hook (on_transaction_committed idx output') s')
            | err e ↦ fail s e
            | panicked ↦ crash
          ])
      go (ok (m', output')) = Does-after_push n must_skip s.ret s.hooks _ (record {
        output = output';
        pushed = notify_ret (on_transaction_committed idx output') _;
        called = inl (notify_hooks (on_transaction_committed idx output') _);
      })
      go (err e) = record { kept = refl; called = inr refl }
      go panicked = tt

  Does-discard_or_push :
      (num_txns : ℕ) (must_skip : Bool) (s : State env) (reads : Reads) (output : Output)
      → Does s.ret s.hooks
          (discard_or_push env has_hook fallback num_txns idx must_skip s reads output)
  unfolding discard_or_push
  Does-discard_or_push n must_skip s reads output = by_mode fallback refl
    where
      push : Does s.ret s.hooks (push_output env has_hook n idx must_skip s reads output)
      push = Does-push_output n must_skip s reads output

      go :
          fallback ≡ true
          → (c : Attempt (Failure env) Bool)
          → Does s.ret s.hooks (elim c [
            | ok true ↦ next (record s {
              ret = s.ret ++ env.discard_output delayed_materialization_code_invariant_error ∷ [];
            })
            | ok false ↦ push_output env has_hook n idx must_skip s reads output
            | err e ↦ fail s e
            | panicked ↦ crash
          ])
      go mode (ok true) = record {
        output = env.discard_output delayed_materialization_code_invariant_error;
        pushed = refl;
        called = inr (mode, refl, refl);
      }
      go mode (ok false) = push
      go mode (err e) = record { kept = refl; called = inr refl }
      go mode panicked = tt

      by_mode :
          (b : Bool)
          → fallback ≡ b
          → Does s.ret s.hooks (
              if b
              then elim (serialization_error env {F = Failure env} s.values output) [
                | ok true ↦ next (record s {
                  ret =
                      s.ret ++ env.discard_output delayed_materialization_code_invariant_error ∷ [];
                })
                | ok false ↦ push_output env has_hook n idx must_skip s reads output
                | err e ↦ fail s e
                | panicked ↦ crash
              ]
              else push_output env has_hook n idx must_skip s reads output)
      by_mode true mode = go mode (serialization_error env s.values output)
      by_mode false mode = push

  Does-on_output :
      (num_txns : ℕ) (must_skip : Bool) (txn : Txn) (s : State env) (reads : Reads)
      (output : Output)
      → Does s.ret s.hooks
          (on_output env has_hook fallback num_txns idx must_skip txn s reads output)
  unfolding on_output account_for
  Does-on_output n must_skip txn s reads output =
      elim (env.aggregator_v1_delta_set (env.materialize_agg_v1 output s.values))
        as (λ d. Does s.ret s.hooks (elim d [
          | [] ↦
              discard_or_push env has_hook fallback n idx must_skip
                (account_for env txn output reads s) reads (env.materialize_agg_v1 output s.values)
          | _ ↦ crash
        ])) [
          | [] ↦
              Does-discard_or_push n must_skip (account_for env txn output reads s) reads
                (env.materialize_agg_v1 output s.values)
          | x ∷ xs ↦ tt
        ]

  -- Every iteration pushes exactly one output, or aborts and pushes none.
  pub Does-step :
      (num_txns : ℕ) (txn : Txn) (s : State env)
      → Does s.ret s.hooks (step env has_hook fallback num_txns idx txn s)
  unfolding step
  Does-step n txn s =
      let (status, m', reads) = env.execute_transaction s.values txn idx in
      by_status (record s { values = m' }) reads status
    where
      aborted :
          (s : State env) (e : BlockExecutionError Error)
          → Does s.ret s.hooks (on_failure env has_hook idx s e)
      aborted s e = record {
        kept = notify_ret (on_execution_aborted idx) s;
        called = inl (notify_hooks (on_execution_aborted idx) s);
      }

      by_status :
          (s : State env) (reads : Reads) (status : ExecutionStatus Output Error)
          → Does s.ret s.hooks (dispatch env has_hook fallback n idx txn s reads status)
      by_status s reads (success o) = Does-on_output n false txn s reads o
      by_status s reads (skip_rest o) = Does-on_output n true txn s reads o
      by_status s reads (abort e) = aborted s (fatal_vm_error e)
      by_status s reads (speculative_execution_abort_error m) =
          aborted s (fatal_block_executor_error (code_invariant_error m))
      by_status s reads (delayed_fields_code_invariant_error m) =
          aborted s (fatal_block_executor_error (code_invariant_error m))
